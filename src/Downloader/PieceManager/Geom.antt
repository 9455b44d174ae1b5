-- ===== src/Downloader/PieceManager/Geom.antt =====
-- The `geom` order of the pieces, from the middle outwards.
use afd.Prelude.{
  ℕ, zero, suc, ◌+◌, ◌-◌, ◌*◌, ◌≤◌, ◌<◌, ◌≡◌, refl, ◌≢◌, true, false, arith, ltb, ◌==◌, Bool-cases,
  inl, inr, ℤ, pos, negsuc, List, [], ◌∷◌, Option, none, some, length, str_eq,
}
use afd.Downloader.Piece.{Piece}
use afd.Downloader.PieceManager.{
  PieceManager, idle_at, geom_index, idle_at_index, geom_search, select_piece,
  get_piece_for_download, index_of,
}
use afd.Downloader.PieceManager.Select.{geom_search-idle}

-- With an odd number of pieces the rounds of the search look at every piece.
pub geom_index-reaches :
    (k j : ℕ) → j < 2 * k + 1 → (i : ℕ) × (i < 2 * k + 1) × (geom_index (2 * k + 1) i ≡ pos j)
unfolding geom_index
geom_index-reaches k j h = elim (Bool-cases (ltb k j)) [
  | inl above ↦ (2 * (j - k) - 1, ground arith, ground arith)
  | inr below ↦ (2 * (k - j), ground arith, ground arith)
]

-- With an even number of pieces no round looks at the first piece.
pub geom_index-ne-zero : (k i : ℕ) → i < 2 * k → geom_index (2 * k) i ≢ pos 0
unfolding geom_index
geom_index-ne-zero k i h e = ground arith

geom_search-some :
    (ps : List Piece) (n i j : ℕ)
    → i ≤ j
    → j < i + n
    → idle_at_index ps (geom_index (length ps) j) ≡ true
    → geom_search ps n i ≢ none
unfolding geom_search
geom_search-some ps zero i j a b h e = omega arith
geom_search-some ps (suc n) i j a b h e =
    elim (Bool-cases (idle_at_index ps (geom_index (length ps) i))) [
      | inl hit ↦ cc (rw (hit, geom_search) at e)
      | inr miss ↦ elim (Bool-cases (i == j)) [
        | inl same ↦ let here : i ≡ j = ground arith in cc (rw here at miss, h)
        | inr other ↦
            geom_search-some ps n (i + 1) j (ground arith) (omega arith) h
              (rw (miss, geom_search) at e)
      ]
    ]

geom_none :
    (ps : List Piece) (n : ℕ) (r : Option ℤ) → geom_search ps n 0 ≡ r → index_of r ≡ none → r ≡ none
unfolding idle_at_index
geom_none ps n none e h = refl
geom_none ps n (some (pos k)) e h = cc
geom_none ps n (some (negsuc k)) e h = cc (geom_search-idle ps n 0 (negsuc k) e)

idle_at-lt : (ps : List Piece) (j : ℕ) → idle_at ps j ≡ true → j < length ps
unfolding idle_at
idle_at-lt [] j h = cc
idle_at-lt (p ∷ ps) zero h = omega arith
idle_at-lt (p ∷ ps) (suc j) h = omega (arith, idle_at-lt ps j h)

geom_gives_up :
    (draw : ℕ → ℕ) (pm : PieceManager) (cuid : ℕ)
    → str_eq pm.piece_selector "geom" ≡ true
    → (get_piece_for_download draw pm cuid).1 ≡ none
    → geom_search pm.pieces (length pm.pieces) 0 ≡ none
unfolding get_piece_for_download select_piece
geom_gives_up draw pm cuid g e =
    geom_none pm.pieces (length pm.pieces) (geom_search pm.pieces (length pm.pieces) 0) refl
      (ground (arith, g))

geom_index_idle :
    (ps : List Piece) (k i j : ℕ)
    → length ps ≡ 2 * k + 1
    → geom_index (2 * k + 1) i ≡ pos j
    → idle_at ps j ≡ true
    → idle_at_index ps (geom_index (length ps) i) ≡ true
unfolding idle_at_index
geom_index_idle ps k i j odd at free = rw (odd, at) (ground (arith, free, idle_at-lt ps j))

-- With the selector `geom` and an odd number of pieces, a worker is given no piece only if no piece is
-- idle.
pub geom_odd-none :
    (draw : ℕ → ℕ) (pm : PieceManager) (cuid k : ℕ)
    → str_eq pm.piece_selector "geom" ≡ true
    → length pm.pieces ≡ 2 * k + 1
    → (get_piece_for_download draw pm cuid).1 ≡ none
    → (j : ℕ) → idle_at pm.pieces j ≡ false
unfolding get_piece_for_download
geom_odd-none draw pm cuid k g odd e j = elim (Bool-cases (idle_at pm.pieces j)) [
  | inr busy ↦ busy
  | inl free ↦ absurd (missed free (geom_gives_up draw pm cuid g e))
]
  where
    ps : List Piece
    ps = pm.pieces

    missed : idle_at ps j ≡ true → geom_search ps (length ps) 0 ≢ none
    missed free =
        let inside = idle_at-lt ps j free in
        let (i, below, at) = geom_index-reaches k j (omega (arith, odd)) in
        geom_search-some ps (length ps) 0 i (omega arith) (omega (arith, odd))
          (geom_index_idle ps k i j odd at free)
