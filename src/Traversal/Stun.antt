-- ===== src/Traversal/Stun.antt =====
-- internal/nat/stun.go: the parsers of STUN responses. An attribute is its type, its length and its value. The
-- position in the packet is the rest of it, and a loop runs once for each byte at most.
pub mod Mapped
use afd.Prelude.{
  ℕ, zero, suc, ◌+◌, bit_xor, Bool, true, false, ◌&&◌, ◌||◌, List, [], ◌∷◌, ◌++◌, Option, none,
  some, arith, if◌then◌else◌, ltb, leb, ◌==◌, length, take, drop, replicate, put_uint16, uint16,
  get_or,
}

abbrev pub stun_binding_response : ℕ
stun_binding_response = 257

abbrev pub stun_mapped_address : ℕ
stun_mapped_address = 1

abbrev pub stun_changed_address : ℕ
stun_changed_address = 5

abbrev pub stun_xor_mapped_address : ℕ
stun_xor_mapped_address = 32

abbrev pub port_mask : ℕ
port_mask = 8466

unfoldable pub create_binding_request : List ℕ
create_binding_request = put_uint16 1 (
    put_uint16 0
      (put_uint16 0 (put_uint16 0 (0 ∷ 1 ∷ 2 ∷ 3 ∷ 4 ∷ 5 ∷ 6 ∷ 7 ∷ 8 ∷ 9 ∷ 10 ∷ 11 ∷ []))))

-- The first four bytes of `transactionIDXOR` on an address of four bytes.
unfoldable pub xor_ip : List ℕ → List ℕ
xor_ip (a ∷ b ∷ c ∷ d ∷ _) = bit_xor a 33 ∷ bit_xor b 18 ∷ bit_xor c 164 ∷ bit_xor d 66 ∷ []
xor_ip _ = []

-- What the body of the loop sets at a mapped address: the address, empty unless it is one of IPv4, and the port.
unfoldable pub read_address : ℕ → ℕ → List ℕ → List ℕ × ℕ
unfolding xor_ip
read_address attr_type attr_len value =
    let is_xor = attr_type == stun_xor_mapped_address in
    let port : ℕ = uint16 (drop 2 value) in
    let ip = take 4 (drop 4 value) in
    if leb 8 attr_len
    then (
      if get_or value 1 0 == 1 && leb 8 (length value)
          then (if is_xor then xor_ip ip else ip)
          else [],
      if is_xor then bit_xor port port_mask else port,
    )
    else ([], 0)

-- The loop of `parseBindingResponse`, with the address and the port at its end.
unfoldable pub find_mapped : ℕ → List ℕ → List ℕ × ℕ
unfolding read_address
find_mapped zero packet = ([], 0)
find_mapped (suc rounds) packet =
    let attr_type : ℕ = uint16 packet in
    let attr_len : ℕ = uint16 (drop 2 packet) in
    let value = drop 4 packet in
    let later = find_mapped rounds (drop attr_len value) in
    if ltb 4 (length packet) && leb attr_len (length value)
    then (if attr_type == stun_mapped_address || attr_type == stun_xor_mapped_address
        then read_address attr_type attr_len value
        else later)
    else ([], 0)

pub data Binding : Type 0 where
  invalid_response no_mapped_address : Binding
  mapped : List ℕ → ℕ → Binding

-- `parseBindingResponse`. The text of an address of four bytes is never empty.
unfoldable pub parse_binding_response : List ℕ → Binding
unfolding find_mapped
parse_binding_response packet =
    let (ip, port) = find_mapped (length packet) (drop 20 packet) in
    if ltb (length packet) 20
    then invalid_response
    else if uint16 packet == stun_binding_response
    then (if length ip == 0 || port == 0 then no_mapped_address else mapped ip port)
    else invalid_response

-- The loop of `parseChangedAddress`.
unfoldable pub find_changed : ℕ → List ℕ → Option (List ℕ)
find_changed zero packet = none
find_changed (suc rounds) packet =
    let attr_len : ℕ = uint16 (drop 2 packet) in
    let value = drop 4 packet in
    let later = find_changed rounds (drop attr_len value) in
    if ltb 4 (length packet) && leb attr_len (length value)
    then (if uint16 packet == stun_changed_address
          && leb 8 attr_len
          && get_or value 1 0 == 1
          && leb 8 (length value)
        then some (take 4 (drop 4 value))
        else later)
    else none

unfoldable pub parse_changed_address : List ℕ → Option (List ℕ)
unfolding find_changed
parse_changed_address packet = find_changed (length packet) (drop 20 packet)
