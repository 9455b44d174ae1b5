-- ===== src/Downloader/Piece/Steal.antt =====
-- Taking over the rest of a piece that another worker is slow on.
use afd.Prelude.{
  ℕ, zero, suc, ◌+◌, ◌-◌, ◌/◌, ◌≤◌, ◌≡◌, refl, ◌⊎◌, Bool, true, false, arith, if◌then◌else◌, inl,
  inr, ℤ, pos, negsuc,
}
use afd.Downloader.Bitfield.{
  BitfieldMan, is_bit_set, unset_use_bit, first_missing_index, count_missing,
}
use afd.Downloader.Bitfield.Invariant.{WellFormed, unset_use_bit-WellFormed}
use afd.Downloader.Piece.{Piece, release_from, steal_from, stealable_range}

ℤ-cases : (z : ℤ) → ((k : ℕ) × (z ≡ negsuc k)) ⊎ ((k : ℕ) × (z ≡ pos k))
ℤ-cases (pos k) = inr (k, refl)
ℤ-cases (negsuc k) = inl (k, refl)

unset_use_bit_frame :
    (b : BitfieldMan) (i : ℤ)
    → ((unset_use_bit b i).num_blocks ≡ b.num_blocks)
      × ((unset_use_bit b i).block_length ≡ b.block_length)
      × ((unset_use_bit b i).total_length ≡ b.total_length)
      × ((unset_use_bit b i).bitfield ≡ b.bitfield)
unfolding unset_use_bit
unset_use_bit_frame b (pos i) = ground arith
unset_use_bit_frame b (negsuc i) = (refl, refl, refl, refl)

-- Releasing blocks touches nothing but the marks of blocks in use.
pub release_from_frame :
    (n i : ℕ) (b : BitfieldMan)
    → ((release_from n i b).num_blocks ≡ b.num_blocks)
      × ((release_from n i b).block_length ≡ b.block_length)
      × ((release_from n i b).total_length ≡ b.total_length)
      × ((release_from n i b).bitfield ≡ b.bitfield)
unfolding release_from
release_from_frame zero i b = (refl, refl, refl, refl)
release_from_frame (suc n) i b = ground (
  arith,
  release_from_frame n (i + 1) (if is_bit_set b i then b else unset_use_bit b (pos i)),
  unset_use_bit_frame b (pos i),
)

pub release_from-WellFormed :
    (n i : ℕ) (b : BitfieldMan) → WellFormed b → WellFormed (release_from n i b)
unfolding release_from
release_from-WellFormed zero i b wf = wf
release_from-WellFormed (suc n) i b wf =
    release_from-WellFormed n (i + 1) _ (released (is_bit_set b i))
  where
    released : (done : Bool) → WellFormed (if done then b else unset_use_bit b (pos i))
    released true = wf
    released false = unset_use_bit-WellFormed b (pos i) wf

-- `StealableRange` returns -1 and 0, or a range of at least the minimum size that begins in the piece and
-- ends with it.
pub steal_range :
    (p p' : Piece) (min_size : ℕ) (off len : ℤ)
    → stealable_range p min_size ≡ (p', off, len)
    → ((off ≡ negsuc 0) × (len ≡ pos 0))
      ⊎ ((o l : ℕ) × (off ≡ pos o)
          × (len ≡ pos l)
          × (min_size ≤ l)
          × (p.start ≤ o)
          × (o + l ≡ p.start + p.length))
unfolding stealable_range steal_from
steal_range p p' min_size off len e = ground arith

-- A steal, whatever it returns, loses no progress: the marks of done blocks stay as they are.
pub steal_keeps_progress :
    (p : Piece) (min_size j : ℕ)
    → is_bit_set (stealable_range p min_size).0.blocks j ≡ is_bit_set p.blocks j
unfolding stealable_range steal_from is_bit_set
steal_keeps_progress p min_size j = elim (first_missing_cases) [
  | inl (k, e) ↦ rw (e, steal_from) (ground arith)
  | inr (k, e) ↦
      rw (e, steal_from)
        (ground (
          arith,
          release_from_frame (p.blocks.num_blocks - (k + count_missing p.blocks / 2))
              (k + count_missing p.blocks / 2) p.blocks,
        ))
]
  where
    first_missing_cases :
        ((k : ℕ) × (first_missing_index p.blocks ≡ negsuc k))
        ⊎ ((k : ℕ) × (first_missing_index p.blocks ≡ pos k))
    first_missing_cases = ℤ-cases (first_missing_index p.blocks)
