-- ===== src/Downloader/PieceManager.antt =====
-- internal/downloader/chunk.go, `PieceManager`: hands the pieces of one file out to workers. The
-- mutex makes each method one atomic step. A pointer to a piece is its place in the list.
pub mod Select
pub mod Geom
pub mod Progress
use afd.Prelude.{
  ℕ, zero, suc, ◌+◌, ◌-◌, ◌/◌, ◌%◌, Bool, true, false, not, ◌&&◌, ◌||◌, List, [], ◌∷◌, Option, none,
  some, String, str_eq, arith, if◌then◌else◌, ltb, ◌==◌, length, get_elem?, set, ℤ, pos, negsuc,
  sub_ℕ, ◌+ℤ◌, ◌-ℤ◌, ltb_ℤ, leb_ℤ,
}
use afd.Downloader.Bitfield.{set_bitfield, is_all_bit_set}
use afd.Downloader.Piece.{
  Piece, PieceStatus, idle, active, complete, set_status, set_owner, is_complete,
  piece_completed_length, stealable_range,
}

pub record PieceManager : Type 0 where
  pub pieces : List Piece
  pub file_size : ℕ
  pub cuid_seq : ℕ
  pub piece_selector : String

unfoldable pub new_piece_manager : List Piece → ℕ → String → PieceManager
new_piece_manager pieces file_size selector = record {
  pieces = pieces;
  file_size = file_size;
  cuid_seq = 0;
  piece_selector = selector;
}

unfoldable pub next_cuid : PieceManager → PieceManager × ℕ
next_cuid pm = (record pm { cuid_seq = pm.cuid_seq + 1 }, pm.cuid_seq + 1)

unfoldable pub is_idle : PieceStatus → Bool
is_idle idle = true
is_idle active = false
is_idle complete = false

unfoldable pub is_active : PieceStatus → Bool
is_active active = true
is_active idle = false
is_active complete = false

-- Is there a piece at `i`, and is it idle?
unfoldable pub idle_at : List Piece → ℕ → Bool
unfolding is_idle
idle_at ps i = elim (get_elem? ps i) [ none ↦ false | some p ↦ is_idle p.status ]

-- The three lines that hand piece `i` to a worker.
unfoldable pub claim : PieceManager → ℕ → ℕ → PieceManager
unfolding set_status set_owner
claim pm i cuid = elim (get_elem? pm.pieces i) [
  | none ↦ pm
  | some p ↦ record pm { pieces = set pm.pieces i (set_owner (set_status p active) cuid) }
]

-- The index that round `i` of the `geom` search looks at.
unfoldable pub geom_index : ℕ → ℕ → ℤ
geom_index total i = if i % 2 == 0 then sub_ℕ (total / 2) (i / 2) else pos (total / 2 + (i + 1) / 2)

unfoldable pub idle_at_index : List Piece → ℤ → Bool
idle_at_index ps (negsuc k) = false
idle_at_index ps (pos k) = ltb k (length ps) && idle_at ps k

unfoldable pub geom_search : List Piece → ℕ → ℕ → Option ℤ
geom_search ps zero i = none
geom_search ps (suc rounds) i =
    let idx : ℤ = geom_index (length ps) i in
    let rest = geom_search ps rounds (i + 1) in if idle_at_index ps idx then some idx else rest

-- The indices of the idle pieces, from `i` on, in order.
unfoldable pub idle_from : ℕ → List Piece → List ℕ
unfolding is_idle
idle_from i [] = []
idle_from i (p ∷ ps) =
    let rest = idle_from (i + 1) ps in if is_idle p.status then i ∷ rest else rest

unfoldable pub first_idle : ℕ → List Piece → Option ℕ
unfolding is_idle
first_idle i [] = none
first_idle i (p ∷ ps) = if is_idle p.status then some i else first_idle (i + 1) ps

abbrev pub index_of : Option ℤ → Option ℕ
index_of none = none
index_of (some (pos k)) = some k
index_of (some (negsuc k)) = none

-- The index that `GetPieceForDownload` settles on. `draw n` is the number that `rand.Intn(n)` returns,
-- below `n` for a positive `n`.
unfoldable pub select_piece : (ℕ → ℕ) → PieceManager → Option ℕ
select_piece draw pm =
    let ps = pm.pieces in
    let idle_pieces = idle_from 0 ps in
    if str_eq pm.piece_selector "geom"
    then index_of (geom_search ps (length ps) 0)
    else if str_eq pm.piece_selector "random"
    then get_elem? idle_pieces (draw (length idle_pieces))
    else first_idle 0 ps

unfoldable pub get_piece_for_download : (ℕ → ℕ) → PieceManager → ℕ → PieceManager × Option ℕ
get_piece_for_download draw pm cuid = elim (select_piece draw pm) [
  | none ↦ (pm, none)
  | some i ↦ (claim pm i cuid, some i)
]

-- The loop of `TryStealPiece`, from piece `i` on. A refused steal still releases blocks. The result
-- is the pieces, the first and the last offset of the range, and the piece.
unfoldable pub try_steal_from : ℕ → List Piece → ℕ → ℕ → List Piece × ℤ × ℤ × Option ℕ
unfolding is_active
try_steal_from i [] cuid min_steal = ([], negsuc 0, negsuc 0, none)
try_steal_from i (p ∷ ps) cuid min_steal =
    let rest = try_steal_from (i + 1) ps cuid min_steal in
    let (p', off, len) = stealable_range p min_steal in
    if is_active p.status && not (p.owner_cuid == cuid)
    then (if leb_ℤ (pos 0) off && leb_ℤ (pos min_steal) len
        then (p' ∷ ps, off, off +ℤ len -ℤ pos 1, some i)
        else (p' ∷ rest.0, rest.1, rest.2, rest.3))
    else (p ∷ rest.0, rest.1, rest.2, rest.3)

unfoldable pub try_steal_piece : PieceManager → ℕ → ℕ → PieceManager × ℤ × ℤ × Option ℕ
try_steal_piece pm cuid min_steal =
    let r = try_steal_from 0 pm.pieces cuid min_steal in (record pm { pieces = r.0 }, r.1, r.2, r.3)

unfoldable pub complete_piece : PieceManager → ℤ → PieceManager
complete_piece pm (negsuc _) = pm
complete_piece pm (pos i) = elim (get_elem? pm.pieces i) [
  | none ↦ pm
  | some p ↦ record pm { pieces = set pm.pieces i (set_status p complete) }
]

unfoldable pub all_complete : List Piece → Bool
all_complete [] = true
all_complete (p ∷ ps) = is_complete p && all_complete ps

unfoldable pub total_completed_length : List Piece → ℕ
total_completed_length [] = 0
total_completed_length (p ∷ ps) = piece_completed_length p + total_completed_length ps

unfoldable pub active_piece_count : List Piece → ℕ
unfolding is_active
active_piece_count [] = 0
active_piece_count (p ∷ ps) = (if is_active p.status then 1 else 0) + active_piece_count ps

unfoldable pub active_at : List Piece → ℕ → Bool
unfolding is_active
active_at ps i = elim (get_elem? ps i) [ none ↦ false | some p ↦ is_active p.status ]

-- `GetEndOffset`: the last offset that a worker on a piece may read. `none` is the panic of an index
-- out of range, which needs an active piece after it and so does not occur.
unfoldable pub get_end_offset : PieceManager → ℕ → Option ℤ
get_end_offset pm i = elim (active_at pm.pieces (i + 1)) [
  | true ↦ elim (get_elem? pm.pieces i) [
    | none ↦ none
    | some p ↦ some (sub_ℕ (p.start + p.length) 1)
  ]
  | false ↦ some (sub_ℕ pm.file_size 1)
]

-- internal/task/controlfile.go, `PieceBitfieldEntry`.
-- `Text` stands for the strings that encoding/base64 makes.
pub record PieceBitfieldEntry (Text : Type 0) : Type 0 where
  pub entry_index : ℤ
  pub entry_bitfield : Text

-- What the code uses of encoding/base64.
pub record Base64 (Text : Type 0) : Type 0 where
  pub encode : List ℕ → Text
  pub decode : Text → Option (List ℕ)

unfoldable pub any_nonzero : List ℕ → Bool
any_nonzero [] = false
any_nonzero (b ∷ bs) = not (b == 0) || any_nonzero bs

unfoldable pub serialize_piece_bitfields :
    {Text : Type 0} → Base64 Text → List Piece → List (PieceBitfieldEntry Text)
unfolding any_nonzero
serialize_piece_bitfields codec [] = []
serialize_piece_bitfields codec (p ∷ ps) =
    let rest = serialize_piece_bitfields codec ps in
    let bf = p.blocks.bitfield in
    if any_nonzero bf
    then record { entry_index = pos p.index; entry_bitfield = codec.encode bf } ∷ rest
    else rest

-- What `RestorePieceBitfields` does to the piece that an entry names.
unfoldable pub restore_piece : Piece → List ℕ → Piece
restore_piece p bf =
    let b = set_bitfield p.blocks bf in
    if is_all_bit_set b then record p { blocks = b; status = complete } else record p { blocks = b }

unfoldable pub restore_at : List Piece → ℕ → List ℕ → List Piece
unfolding restore_piece
restore_at [] i bf = []
restore_at (p ∷ ps) zero bf = restore_piece p bf ∷ ps
restore_at (p ∷ ps) (suc i) bf = p ∷ restore_at ps i bf

-- An entry whose index is out of range is skipped.
unfoldable pub restore_entry : List Piece → ℤ → List ℕ → List Piece
unfolding restore_at
restore_entry ps (negsuc _) bf = ps
restore_entry ps (pos i) bf = restore_at ps i bf

unfoldable pub restore_piece_bitfields :
    {Text : Type 0} → Base64 Text → List Piece → List (PieceBitfieldEntry Text) → List Piece
unfolding restore_entry
restore_piece_bitfields codec ps [] = ps
restore_piece_bitfields codec ps (e ∷ es) = elim (codec.decode e.entry_bitfield) [
  | none ↦ restore_piece_bitfields codec ps es
  | some bf ↦ restore_piece_bitfields codec (restore_entry ps e.entry_index bf) es
]
