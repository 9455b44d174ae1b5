-- ===== src/Downloader/Split/Cover.antt =====
-- `SplitFileIntoPieces` of internal/downloader/chunk.go: how the pieces of a file cover it.
use Prim.Native.Nat.{min}
use afd.Prelude.{
  ℕ, zero, suc, ◌+◌, ◌-◌, ◌*◌, ◌/◌, ◌%◌, ◌≤◌, ◌<◌, ◌≡◌, refl, subst, ap, true, List, [], ◌∷◌, some,
  arith, if◌then◌else◌, ltb, ◌==◌, Bool-cases, inl, inr,
}
use afd.Downloader.Piece.{Piece, new_piece}
use afd.Downloader.Split.{
  DownloadConfig, validate, base_piece_size, count_pieces, choose_piece_size, cut,
  split_file_into_pieces, default_block_length,
}

-- The pieces follow one another from `a` to `b`, numbered from `i`, and none is empty.
abbrev pub Tiles : ℕ → ℕ → List Piece → ℕ → Type 0
Tiles i a [] b = a ≡ b
Tiles i a (p ∷ ps) b =
    (p.index ≡ i) × (p.start ≡ a) × (0 < p.length) × Tiles (i + 1) (a + p.length) ps b

count_pieces_bounds :
    (fs size : ℕ)
    → 0 < fs
    → 0 < size
    → (n : ℕ) × (count_pieces fs size ≡ suc n) × (n * size < fs) × (fs ≤ suc n * size)
unfolding count_pieces
count_pieces_bounds fs size hf hs = elim (Bool-cases (fs % size == 0)) [
  | inl even ↦ exact (fs / size) refl (ground (arith, whole))
  | inr odd ↦ (fs / size, rw odd (omega arith), ground (arith, whole), omega (arith, whole, rest))
]
  where
    whole : fs / size * size + fs % size ≡ fs
    whole = omega (arith, hs)

    rest : fs % size < size
    rest = omega (arith, hs)

    exact :
        (q : ℕ)
        → fs / size ≡ q
        → q * size ≡ fs
        → (n : ℕ) × ((if fs % size == 0 then fs / size else fs / size + 1) ≡ suc n)
          × (n * size < fs)
          × (fs ≤ suc n * size)
    exact zero e w = absurd (omega arith)
    exact (suc n) e w = (n, ground (arith, whole), omega arith, omega arith)

cut-Tiles :
    (rounds i size fs : ℕ)
    → 0 < size
    → fs ≤ (rounds + i) * size
    → ((n : ℕ) → rounds ≡ suc n → (n + i) * size < fs)
    → Tiles i (min (i * size) fs) (cut rounds i size fs) fs
unfolding cut new_piece
cut-Tiles zero i size fs hs hi lo = omega arith
cut-Tiles (suc rounds) i size fs hs hi lo = (
  refl,
  omega (arith, before),
  ground (arith, before),
  subst (λ a. Tiles (i + 1) a (cut rounds (i + 1) size fs) fs) next
      (cut-Tiles rounds (i + 1) size fs hs (omega arith)
        (λ n e. omega (arith, ap (λ k. (k + i) * size) e, lo rounds refl))),
)
  where
    before : i * size < fs
    before = omega (arith, lo rounds refl)

    next :
        min ((i + 1) * size) fs
        ≡ min (i * size) fs + (if ltb fs (i * size + size) then fs - i * size else size)
    next = ground (arith, before)

-- The pieces of a file that is not empty, where the split gives any, cover it: they are numbered from 0, none
-- is empty, each begins where the one before it ends, and the last ends with the file.
pub split-Tiles :
    (fs : ℕ) (c : DownloadConfig) {ps : List Piece}
    → 0 < fs
    → split_file_into_pieces fs c ≡ some ps
    → Tiles 0 0 ps fs
unfolding split_file_into_pieces
split-Tiles fs c {ps} h e = subst (λ l. Tiles 0 0 l fs) whole tiles
  where
    size : ℕ
    size = choose_piece_size fs c

    size_pos : 0 < size
    size_pos = ground arith

    whole : cut (count_pieces fs size) 0 size fs ≡ ps
    whole = ground arith

    tiles : Tiles 0 0 (cut (count_pieces fs size) 0 size fs) fs
    tiles =
        let (n, count, low, high) = count_pieces_bounds fs size h size_pos in
        let from : min (0 * size) fs ≡ 0 = omega arith in
        rw from at (
          cut-Tiles (count_pieces fs size) 0 size fs size_pos
            (omega (arith, ap (λ k. k * size) count))
            (λ m e'. ground (arith, ap (λ k. k * size) count, count, ap (λ k. k * size) e')))

choose_piece_size_pos :
    (fs : ℕ) (c : DownloadConfig)
    → validate c ≡ true
    → 0 < c.min_chunk_size
    → 0 < choose_piece_size fs c
unfolding choose_piece_size validate
choose_piece_size_pos fs c v h = ground arith

base_piece_size_pos :
    (c : DownloadConfig) → validate c ≡ true → 0 < c.min_chunk_size → 0 < base_piece_size c
unfolding base_piece_size validate
base_piece_size_pos c v h = ground arith

-- With a configuration that `Validate` accepts and a positive minimum chunk size, every size of file is
-- split.
pub split_total :
    (fs : ℕ) (c : DownloadConfig)
    → validate c ≡ true
    → 0 < c.min_chunk_size
    → (ps : List Piece) × (split_file_into_pieces fs c ≡ some ps)
unfolding split_file_into_pieces
split_total fs c v h = elim (Bool-cases (fs == 0)) [
  | inl empty ↦ (new_piece 0 0 0 default_block_length ∷ [], rw empty)
  | inr some_bytes ↦ (
    cut (count_pieces fs (choose_piece_size fs c)) 0 (choose_piece_size fs c) fs,
    ground (arith, choose_piece_size_pos fs c, base_piece_size_pos c),
  )
]
