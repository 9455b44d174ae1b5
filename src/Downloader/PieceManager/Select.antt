-- ===== src/Downloader/PieceManager/Select.antt =====
-- Which piece of internal/downloader/chunk.go a worker gets.
use afd.Prelude.{
  ℕ, zero, suc, ◌+◌, ◌-◌, ◌≤◌, ◌<◌, ◌≡◌, refl, subst, ap, ◌≢◌, true, false, arith, Bool-cases,
  Option-cases, inl, inr, ℤ, pos, negsuc, List, [], ◌∷◌, Option, none, some, get_elem?, set, length,
  get_elem?-set_self, get_elem?-set_ne, str_eq,
}
use afd.Downloader.Piece.{Piece, idle, active}
use afd.Downloader.PieceManager.{
  PieceManager, is_idle, idle_at, claim, idle_at_index, geom_search, idle_from, first_idle,
  select_piece, get_piece_for_download, index_of,
}

pub geom_search-idle :
    (ps : List Piece) (n i : ℕ) (idx : ℤ)
    → geom_search ps n i ≡ some idx
    → idle_at_index ps idx ≡ true
unfolding geom_search
geom_search-idle ps zero i idx e = cc
geom_search-idle ps (suc n) i idx e = ground (arith, geom_search-idle ps n (i + 1) idx)

-- `Found s ps i`: `i` counts from `s`, and names an idle piece of `ps`.
abbrev Found : ℕ → List Piece → ℕ → Type 0
Found s ps i = (s ≤ i) × (idle_at ps (i - s) ≡ true)

Found-head : (s : ℕ) (p : Piece) (ps : List Piece) → is_idle p.status ≡ true → Found s (p ∷ ps) s
unfolding idle_at
Found-head s p ps h = let e : s - s ≡ 0 = omega arith in (omega arith, rw e h)

Found-tail : (s i : ℕ) (p : Piece) (ps : List Piece) → Found (s + 1) ps i → Found s (p ∷ ps) i
unfolding idle_at
Found-tail s i p ps (l, h) =
    let e : i - s ≡ suc (i - (s + 1)) = omega arith in (omega arith, rw e h)

first_idle-Found : (s : ℕ) (ps : List Piece) (i : ℕ) → first_idle s ps ≡ some i → Found s ps i
unfolding first_idle
first_idle-Found s [] i e = cc
first_idle-Found s (p ∷ ps) i e = elim (Bool-cases (is_idle p.status)) [
  | inl hit ↦ let same : s ≡ i = ground arith in rw (← same) (Found-head s p ps hit)
  | inr miss ↦ Found-tail s i p ps (first_idle-Found (s + 1) ps i (rw (miss, first_idle) at e))
]

idle_from-Found :
    (s : ℕ) (ps : List Piece) (k i : ℕ) → get_elem? (idle_from s ps) k ≡ some i → Found s ps i
unfolding idle_from
idle_from-Found s [] k i e = cc
idle_from-Found s (p ∷ ps) zero i e = elim (Bool-cases (is_idle p.status)) [
  | inl hit ↦ let same : s ≡ i = ground arith in rw (← same) (Found-head s p ps hit)
  | inr miss ↦ Found-tail s i p ps (idle_from-Found (s + 1) ps zero i (rw (miss, idle_from) at e))
]
idle_from-Found s (p ∷ ps) (suc k) i e = elim (Bool-cases (is_idle p.status)) [
  | inl hit ↦ Found-tail s i p ps (idle_from-Found (s + 1) ps k i (rw (hit, idle_from) at e))
  | inr miss ↦
      Found-tail s i p ps (idle_from-Found (s + 1) ps (suc k) i (rw (miss, idle_from) at e))
]

Found-at_zero : (ps : List Piece) (i : ℕ) → Found 0 ps i → idle_at ps i ≡ true
Found-at_zero ps i f = let e : i - 0 ≡ i = omega arith in rw e at f.1

geom_idle :
    (ps : List Piece) (n i : ℕ) → index_of (geom_search ps n 0) ≡ some i → idle_at ps i ≡ true
geom_idle ps n i e = go (geom_search ps n 0) refl e
  where
    go : (r : Option ℤ) → geom_search ps n 0 ≡ r → index_of r ≡ some i → idle_at ps i ≡ true
    go none s h = cc
    go (some (negsuc k)) s h = cc
    go (some (pos k)) s h =
        unfold idle_at_index in ground (arith, geom_search-idle ps n 0 (pos k) s)

-- Whatever the selector, and whatever is drawn, only an idle piece is selected.
select_piece-idle :
    (draw : ℕ → ℕ) (pm : PieceManager) (i : ℕ)
    → select_piece draw pm ≡ some i
    → idle_at pm.pieces i ≡ true
unfolding select_piece
select_piece-idle draw pm i e = elim (Bool-cases (str_eq pm.piece_selector "geom")) [
  | inl g ↦ geom_idle pm.pieces (length pm.pieces) i (rw g at e)
  | inr ng ↦ elim (Bool-cases (str_eq pm.piece_selector "random")) [
    | inl r ↦
        Found-at_zero pm.pieces i
          (idle_from-Found 0 pm.pieces (draw (length (idle_from 0 pm.pieces))) i (rw (ng, r) at e))
    | inr nr ↦ Found-at_zero pm.pieces i (first_idle-Found 0 pm.pieces i (rw (ng, nr) at e))
  ]
]

idle_at-elem :
    (ps : List Piece) (i : ℕ)
    → idle_at ps i ≡ true
    → (p : Piece) × (get_elem? ps i ≡ some p) × (p.status ≡ idle)
unfolding idle_at is_idle
idle_at-elem ps i h = ground arith

get_elem?-lt {ℓ} :
    {A : Type ℓ} (xs : List A) (i : ℕ) {x : A} → get_elem? xs i ≡ some x → i < length xs
get_elem?-lt [] i e = cc
get_elem?-lt (y ∷ xs) zero e = omega arith
get_elem?-lt (y ∷ xs) (suc i) e = omega (arith, get_elem?-lt xs i e)

-- What `claim` does to the piece that it is given, and to the others.
record Claimed (pm pm' : PieceManager) (cuid i : ℕ) : Type 0 where
  piece : Piece
  found : get_elem? pm.pieces i ≡ some piece
  free : piece.status ≡ idle
  after : pm'.pieces ≡ set pm.pieces i (record piece { status = active; owner_cuid = cuid })

claim-Claimed :
    (pm : PieceManager) (cuid i : ℕ)
    → idle_at pm.pieces i ≡ true
    → Claimed pm (claim pm i cuid) cuid i
unfolding claim
claim-Claimed pm cuid i h =
    let (p, found, free) = idle_at-elem pm.pieces i h in
    record { piece = p; found = found; free = free; after = rw (found, claim) refl }

get_piece-Claimed :
    (draw : ℕ → ℕ) (pm : PieceManager) (cuid : ℕ) {pm' : PieceManager} {i : ℕ}
    → get_piece_for_download draw pm cuid ≡ (pm', some i)
    → Claimed pm pm' cuid i
unfolding get_piece_for_download
get_piece-Claimed draw pm cuid {pm'} {i} e = elim (Option-cases (select_piece draw pm)) [
  | inl nothing ↦ absurd (cc (rw (nothing, get_piece_for_download) at e))
  | inr (k, hit) ↦
      let result : (claim pm k cuid, some k) ≡ (pm', some i) =
        rw (hit, get_piece_for_download) at e in
      let same : k ≡ i = ground (arith, result) in
      let state : claim pm k cuid ≡ pm' = ap (λ (r : PieceManager × Option ℕ). r.0) result in
      rw (← same) (
        subst (λ q. Claimed pm q cuid k) state
          (claim-Claimed pm cuid k (select_piece-idle draw pm k hit)))
]

-- Where `GetPieceForDownload` gives a worker a piece, the piece was idle, it is active and owned by the worker
-- afterwards, and no other piece changes.
pub get_piece-exclusive :
    (draw : ℕ → ℕ) (pm : PieceManager) (cuid : ℕ) {pm' : PieceManager} {i : ℕ}
    → get_piece_for_download draw pm cuid ≡ (pm', some i)
    → (p : Piece) × (get_elem? pm.pieces i ≡ some p)
      × (p.status ≡ idle)
      × (get_elem? pm'.pieces i ≡ some (record p { status = active; owner_cuid = cuid }))
      × ((j : ℕ) → i ≢ j → get_elem? pm'.pieces j ≡ get_elem? pm.pieces j)
get_piece-exclusive draw pm cuid {pm'} {i} e =
    let c = get_piece-Claimed draw pm cuid e in
    (
      c.piece,
      c.found,
      c.free,
      rw c.after (get_elem?-set_self pm.pieces i _ (get_elem?-lt pm.pieces i c.found)),
      λ j ne. rw c.after (get_elem?-set_ne pm.pieces _ ne),
    )

-- Two workers in a row are never given the same piece.
pub get_piece_twice :
    (draw : ℕ → ℕ) (pm : PieceManager) (cuid cuid' : ℕ) {pm' pm'' : PieceManager} {i j : ℕ}
    → get_piece_for_download draw pm cuid ≡ (pm', some i)
    → get_piece_for_download draw pm' cuid' ≡ (pm'', some j)
    → i ≢ j
get_piece_twice draw pm cuid cuid' {pm'} {pm''} {i} {j} e e' same =
    let (p, _, _, busy, _) = get_piece-exclusive draw pm cuid e in
    let (q, found, free, _, _) = get_piece-exclusive draw pm' cuid' e' in
    ground (arith, busy, found, free, same)

first_idle-none : (s : ℕ) (ps : List Piece) (j : ℕ) → first_idle s ps ≡ none → idle_at ps j ≡ false
unfolding first_idle idle_at
first_idle-none s [] j e = refl
first_idle-none s (p ∷ ps) zero e = ground arith
first_idle-none s (p ∷ ps) (suc j) e = elim (Bool-cases (is_idle p.status)) [
  | inl hit ↦ ground arith
  | inr miss ↦ first_idle-none (s + 1) ps j (rw (miss, first_idle) at e)
]

idle_from-none : (s : ℕ) (ps : List Piece) (j : ℕ) → idle_from s ps ≡ [] → idle_at ps j ≡ false
unfolding idle_from idle_at
idle_from-none s [] j e = refl
idle_from-none s (p ∷ ps) zero e = ground arith
idle_from-none s (p ∷ ps) (suc j) e = elim (Bool-cases (is_idle p.status)) [
  | inl hit ↦ ground arith
  | inr miss ↦ idle_from-none (s + 1) ps j (rw (miss, idle_from) at e)
]

get_elem?-none {ℓ} : {A : Type ℓ} (xs : List A) (i : ℕ) → i < length xs → get_elem? xs i ≡ none → ⊥
get_elem?-none [] i h e = omega arith
get_elem?-none (x ∷ xs) zero h e = cc
get_elem?-none (x ∷ xs) (suc i) h e = get_elem?-none xs i (omega arith) e

select_piece-none :
    (draw : ℕ → ℕ) (pm : PieceManager) (j : ℕ)
    → str_eq pm.piece_selector "geom" ≡ false
    → ((n : ℕ) → 0 < n → draw n < n)
    → select_piece draw pm ≡ none
    → idle_at pm.pieces j ≡ false
unfolding select_piece
select_piece-none draw pm j ng range e = elim (Bool-cases (str_eq pm.piece_selector "random")) [
  | inl r ↦ drawn (idle_from 0 pm.pieces) refl (rw (ng, r) at e)
  | inr nr ↦ first_idle-none 0 pm.pieces j (rw (ng, nr) at e)
]
  where
    drawn :
        (l : List ℕ)
        → idle_from 0 pm.pieces ≡ l
        → get_elem? (idle_from 0 pm.pieces) (draw (length (idle_from 0 pm.pieces))) ≡ none
        → idle_at pm.pieces j ≡ false
    drawn [] same out = idle_from-none 0 pm.pieces j same
    drawn (x ∷ l) same out =
        absurd
          (get_elem?-none (x ∷ l) (draw (length (x ∷ l))) (range _ (omega arith)) (rw same at out))

-- Where the selector is not `geom` and the random draw is in range, a worker is given no piece only if no
-- piece is idle.
pub get_piece-none :
    (draw : ℕ → ℕ) (pm : PieceManager) (cuid : ℕ)
    → str_eq pm.piece_selector "geom" ≡ false
    → ((n : ℕ) → 0 < n → draw n < n)
    → (get_piece_for_download draw pm cuid).1 ≡ none
    → (j : ℕ) → idle_at pm.pieces j ≡ false
unfolding get_piece_for_download
get_piece-none draw pm cuid ng range e j = elim (Option-cases (select_piece draw pm)) [
  | inl nothing ↦ select_piece-none draw pm j ng range nothing
  | inr (k, hit) ↦ absurd (cc (rw (hit, get_piece_for_download) at e))
]
