-- ===== src/Downloader/Bitfield/Invariant.antt =====
-- What holds of a bitmap between two calls, and what each call does to it.
use afd.Prelude.{
  ℕ, zero, suc, ◌+◌, ◌-◌, ◌/◌, ◌<◌, ◌≡◌, refl, sym, ◌∙◌, ◌↔◌, Bool, true, false, ◌&&◌, inl, inr,
  List, length, arith, length-replicate, if◌then◌else◌, ltb, ◌==◌, Bool-cases, ℤ, pos, negsuc,
  count_from, count_from-ext, count_from-add, count_from-full, count_from-all,
}
use afd.Downloader.Bitfield.Bytes.{
  test_bit, AreBytes, put_bit-AreBytes, clear_bit-AreBytes, test_bit-put, test_bit-clear,
  length-put_bit, length-clear_bit, replicate-AreBytes, test_bit-replicate,
}
use afd.Downloader.Bitfield.{
  BitfieldMan, new_bitfield_man, is_bit_set, is_use_bit_set, set_bit, unset_bit, set_use_bit,
  unset_use_bit, is_all_bit_set, set_bitfield,
}

pub record WellFormed (b : BitfieldMan) : Type 0 where
  pub sized : length b.bitfield ≡ (b.num_blocks + 7) / 8
  pub use_sized : length b.use_bitfield ≡ (b.num_blocks + 7) / 8
  pub bytes : AreBytes b.bitfield
  pub use_bytes : AreBytes b.use_bitfield
  pub counted : b.completed_count ≡ count_from b.num_blocks 0 (is_bit_set b)

count_from-none : (n i : ℕ) (p : ℕ → Bool) → ((j : ℕ) → p j ≡ false) → count_from n i p ≡ 0
unfolding count_from
count_from-none zero i p h = refl
count_from-none (suc n) i p h = rw (h i) (omega (arith, count_from-none n (i + 1) p h))

pub new-WellFormed : (n bl total : ℕ) → WellFormed (new_bitfield_man n bl total)
unfolding new_bitfield_man is_bit_set
new-WellFormed n bl total = record {
  sized = length-replicate _ _;
  use_sized = length-replicate _ _;
  bytes = replicate-AreBytes _;
  use_bytes = replicate-AreBytes _;
  counted = sym (count_from-none n 0 _ (λ j. ground (arith, test_bit-replicate ((n + 7) / 8) j)));
}

module _ (b : BitfieldMan) (wf : WellFormed b) (i : ℕ) where
  -- `SetBit` sets the bit, if the index is in range, and no other.
  pub is_bit_set-set_bit :
      (j : ℕ)
      → is_bit_set (set_bit b (pos i)) j
        ≡ (if i == j && ltb i b.num_blocks then true else is_bit_set b j)
  unfolding is_bit_set set_bit
  is_bit_set-set_bit j = elim (Bool-cases (ltb i b.num_blocks)) [
    | inl inside ↦
        rw inside
          (ground (arith, wf, test_bit-put b.bitfield i wf.bytes (ground (arith, wf.sized)) j))
    | inr outside ↦ rw outside (ground arith)
  ]

  pub is_bit_set-unset_bit :
      (j : ℕ)
      → is_bit_set (unset_bit b (pos i)) j
        ≡ (if i == j && ltb i b.num_blocks then false else is_bit_set b j)
  unfolding is_bit_set unset_bit
  is_bit_set-unset_bit j = elim (Bool-cases (ltb i b.num_blocks)) [
    | inl inside ↦
        rw inside
          (ground (arith, wf, test_bit-clear b.bitfield i wf.bytes (ground (arith, wf.sized)) j))
    | inr outside ↦ rw outside (ground arith)
  ]

  pub is_use_bit_set-set_use_bit :
      (j : ℕ)
      → is_use_bit_set (set_use_bit b (pos i)) j
        ≡ (if i == j && ltb i b.num_blocks then true else is_use_bit_set b j)
  unfolding is_use_bit_set set_use_bit
  is_use_bit_set-set_use_bit j = elim (Bool-cases (ltb i b.num_blocks)) [
    | inl inside ↦ rw inside (
        ground
          (arith, wf, test_bit-put b.use_bitfield i wf.use_bytes (ground (arith, wf.use_sized)) j))
    | inr outside ↦ rw outside (ground arith)
  ]

  pub is_use_bit_set-unset_use_bit :
      (j : ℕ)
      → is_use_bit_set (unset_use_bit b (pos i)) j
        ≡ (if i == j && ltb i b.num_blocks then false else is_use_bit_set b j)
  unfolding is_use_bit_set unset_use_bit
  is_use_bit_set-unset_use_bit j = elim (Bool-cases (ltb i b.num_blocks)) [
    | inl inside ↦ rw inside (
        ground (
          arith,
          wf,
          test_bit-clear b.use_bitfield i wf.use_bytes (ground (arith, wf.use_sized)) j,
        ))
    | inr outside ↦ rw outside (ground arith)
  ]

  count-set_bit :
      ltb i b.num_blocks ≡ true
      → count_from b.num_blocks 0 (is_bit_set (set_bit b (pos i)))
        ≡ (if test_bit b.bitfield i then b.completed_count else b.completed_count + 1)
  unfolding is_bit_set
  count-set_bit inside = elim (Bool-cases (is_bit_set b i)) [
    | inl old ↦ ground (
      arith,
      wf.counted,
      count_from-ext b.num_blocks 0 (is_bit_set (set_bit b (pos i))) (is_bit_set b)
          (λ j _ _. ground (arith, is_bit_set-set_bit j)),
    )
    | inr new ↦ ground (
      arith,
      wf.counted,
      count_from-add b.num_blocks 0 i (is_bit_set b) (is_bit_set (set_bit b (pos i))) (omega arith)
          (ground arith) new (ground (arith, is_bit_set-set_bit i))
          (λ j ne. ground (arith, is_bit_set-set_bit j, ne)),
    )
  ]

  count-unset_bit :
      ltb i b.num_blocks ≡ true
      → count_from b.num_blocks 0 (is_bit_set (unset_bit b (pos i)))
        ≡ (if test_bit b.bitfield i then b.completed_count - 1 else b.completed_count)
  unfolding is_bit_set
  count-unset_bit inside = elim (Bool-cases (is_bit_set b i)) [
    | inr old ↦ ground (
      arith,
      wf.counted,
      count_from-ext b.num_blocks 0 (is_bit_set (unset_bit b (pos i))) (is_bit_set b)
          (λ j _ _. ground (arith, is_bit_set-unset_bit j)),
    )
    | inl new ↦ ground (
      arith,
      wf.counted,
      count_from-add b.num_blocks 0 i (is_bit_set (unset_bit b (pos i))) (is_bit_set b)
          (omega arith) (ground arith) (ground (arith, is_bit_set-unset_bit i)) new
          (λ j ne. ground (arith, is_bit_set-unset_bit j, ne)),
    )
  ]

pub set_bit-WellFormed : (b : BitfieldMan) (i : ℤ) → WellFormed b → WellFormed (set_bit b i)
unfolding set_bit
set_bit-WellFormed b (negsuc i) wf = wf
set_bit-WellFormed b (pos i) wf = elim (Bool-cases (ltb i b.num_blocks)) [
  | inl inside ↦ rw inside (record {
    sized = length-put_bit b.bitfield i ∙ wf.sized;
    use_sized = wf.use_sized;
    bytes = put_bit-AreBytes b.bitfield i wf.bytes;
    use_bytes = wf.use_bytes;
    counted = sym (rw inside at (count-set_bit b wf i inside));
  })
  | inr outside ↦ rw outside wf
]

pub unset_bit-WellFormed : (b : BitfieldMan) (i : ℤ) → WellFormed b → WellFormed (unset_bit b i)
unfolding unset_bit
unset_bit-WellFormed b (negsuc i) wf = wf
unset_bit-WellFormed b (pos i) wf = elim (Bool-cases (ltb i b.num_blocks)) [
  | inl inside ↦ rw inside (record {
    sized = length-clear_bit b.bitfield i ∙ wf.sized;
    use_sized = wf.use_sized;
    bytes = clear_bit-AreBytes b.bitfield i wf.bytes;
    use_bytes = wf.use_bytes;
    counted = sym (rw inside at (count-unset_bit b wf i inside));
  })
  | inr outside ↦ rw outside wf
]

pub set_use_bit-WellFormed : (b : BitfieldMan) (i : ℤ) → WellFormed b → WellFormed (set_use_bit b i)
unfolding set_use_bit is_bit_set
set_use_bit-WellFormed b (negsuc i) wf = wf
set_use_bit-WellFormed b (pos i) wf = elim (Bool-cases (ltb i b.num_blocks)) [
  | inl inside ↦ rw inside (record {
    sized = wf.sized;
    use_sized = length-put_bit b.use_bitfield i ∙ wf.use_sized;
    bytes = wf.bytes;
    use_bytes = put_bit-AreBytes b.use_bitfield i wf.use_bytes;
    counted = wf.counted;
  })
  | inr outside ↦ rw outside wf
]

pub unset_use_bit-WellFormed :
    (b : BitfieldMan) (i : ℤ) → WellFormed b → WellFormed (unset_use_bit b i)
unfolding unset_use_bit is_bit_set
unset_use_bit-WellFormed b (negsuc i) wf = wf
unset_use_bit-WellFormed b (pos i) wf = elim (Bool-cases (ltb i b.num_blocks)) [
  | inl inside ↦ rw inside (record {
    sized = wf.sized;
    use_sized = length-clear_bit b.use_bitfield i ∙ wf.use_sized;
    bytes = wf.bytes;
    use_bytes = clear_bit-AreBytes b.use_bitfield i wf.use_bytes;
    counted = wf.counted;
  })
  | inr outside ↦ rw outside wf
]

pub set_bitfield-WellFormed :
    (b : BitfieldMan) (bf : List ℕ) → AreBytes bf → WellFormed b → WellFormed (set_bitfield b bf)
unfolding set_bitfield is_bit_set
set_bitfield-WellFormed b bf bytes wf = elim (Bool-cases (length bf == length b.bitfield)) [
  | inl same ↦ rw same (record {
    sized = ground (arith, wf.sized);
    use_sized = wf.use_sized;
    bytes = bytes;
    use_bytes = wf.use_bytes;
    counted = refl;
  })
  | inr other ↦ rw other wf
]

-- For a well-formed bitfield, the test that compares the counter with the number of blocks passes exactly if
-- every block is marked as done.
pub is_all_bit_set_iff :
    (b : BitfieldMan)
    → WellFormed b
    → (is_all_bit_set b ≡ true) ↔ ((i : ℕ) → i < b.num_blocks → is_bit_set b i ≡ true)
unfolding is_all_bit_set
is_all_bit_set_iff b wf = (
  λ h i l.
      count_from-full b.num_blocks 0 (is_bit_set b) i (ground (arith, wf.counted)) (omega arith)
        (omega arith),
  λ h. ground (
    arith,
    wf.counted,
    count_from-all b.num_blocks 0 (is_bit_set b) (λ j _ l. h j (omega arith)),
  ),
)
