-- ===== src/Traversal/Stun/Mapped.antt =====
-- `parseBindingResponse` of internal/nat/stun.go against responses that are built attribute by attribute.
use afd.Prelude.{
  ℕ, ◌%◌, ◌<◌, ◌≡◌, ◌≢◌, bit_xor, List, [], ◌∷◌, ◌++◌, arith, length, replicate, ◌-◌, put_uint16,
  byte_xor_twice,
}
use afd.Traversal.Stun.{stun_mapped_address, stun_xor_mapped_address, port_mask, xor_ip}

-- An attribute of a message.
pub record Attribute : Type 0 where
  pub attr_type : ℕ
  pub value : List ℕ

-- The bytes as the parser passes over them: without padding.
abbrev write_attribute : Attribute → List ℕ → List ℕ
write_attribute a rest = put_uint16 a.attr_type (put_uint16 (length a.value) (a.value ++ rest))

abbrev write_attributes : List Attribute → List ℕ → List ℕ
write_attributes [] rest = rest
write_attributes (a ∷ others) rest = write_attribute a (write_attributes others rest)

-- RFC 5389, section 15: a server pads the value to a multiple of four bytes, and the length is that of the value.
abbrev padding : ℕ → ℕ
padding n = (4 - n % 4) % 4

abbrev pub write_padded : Attribute → List ℕ → List ℕ
write_padded a rest =
    put_uint16 a.attr_type
      (put_uint16 (length a.value) (a.value ++ (replicate (padding (length a.value)) 0 ++ rest)))

abbrev pub write_all_padded : List Attribute → List ℕ → List ℕ
write_all_padded [] rest = rest
write_all_padded (a ∷ others) rest = write_padded a (write_all_padded others rest)

-- The length of every value is a multiple of four.
abbrev pub AllAligned : List Attribute → Type 0
AllAligned [] = Unit {0}
AllAligned (a ∷ others) = (length a.value % 4 ≡ 0) × AllAligned others

-- An attribute of a valid length that holds no address.
abbrev pub IsOther : Attribute → Type 0
IsOther a =
    (a.attr_type < 65536)
    × (length a.value < 65536)
    × (a.attr_type ≢ stun_mapped_address)
    × (a.attr_type ≢ stun_xor_mapped_address)

abbrev pub AllOther : List Attribute → Type 0
AllOther [] = Unit {0}
AllOther (a ∷ others) = IsOther a × AllOther others

-- The attribute with which a server answers, for an address of four bytes and a port.
abbrev pub xor_attribute : List ℕ → ℕ → Attribute
xor_attribute ip port = record {
  attr_type = stun_xor_mapped_address;
  value = 0 ∷ 1 ∷ put_uint16 (bit_xor port port_mask) (xor_ip ip);
}

IsByte : ℕ → Type 0
IsByte b = b < 256

xor_ip-twice :
    (a b c d : ℕ)
    → IsByte a
    → IsByte b
    → IsByte c
    → IsByte d
    → xor_ip (xor_ip (a ∷ b ∷ c ∷ d ∷ [])) ≡ a ∷ b ∷ c ∷ d ∷ []
unfolding xor_ip IsByte
xor_ip-twice a b c d ha hb hc hd = cc (
  byte_xor_twice 33 a (omega arith) ha,
  byte_xor_twice 18 b (omega arith) hb,
  byte_xor_twice 164 c (omega arith) hc,
  byte_xor_twice 66 d (omega arith) hd,
)
