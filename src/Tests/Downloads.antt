-- ===== src/Tests/Downloads.antt =====
-- Runs of the pieces and blocks of internal/downloader/chunk.go.
use afd.Prelude.{
  ℕ, ◌≡◌, refl, ◌⊎◌, inl, inr, ℤ, pos, negsuc, Bool, true, List, [], ◌∷◌, map, Option, none, some,
  String, length, arith, ◌≤◌, ◌+◌, ◌-◌, ◌≢◌, ◌↔◌, get_elem?,
}
use afd.Downloader.Bitfield.{
  BitfieldMan, new_bitfield_man, set_bit, is_bit_set, is_all_bit_set, remaining_length,
}
use afd.Downloader.Bitfield.Invariant.{WellFormed, new-WellFormed, set_bit-WellFormed}
use afd.Downloader.Bitfield.Lengths.{Covers}
use afd.Downloader.Piece.{Piece, idle, active, new_piece, next_unused_block, complete_block}
use afd.Downloader.Piece.Blocks.{IsSound, new_piece-IsSound, next_unused_block_disjoint}
use afd.Downloader.Split.{DownloadConfig, validate, split_file_into_pieces}
use afd.Downloader.Split.Cover.{Tiles, split-Tiles}
use afd.Downloader.PieceManager.{
  PieceManager, new_piece_manager, get_piece_for_download, idle_at, all_complete,
  total_completed_length, Base64, serialize_piece_bitfields, restore_piece_bitfields,
}
use afd.Downloader.PieceManager.Select.{get_piece-exclusive}
use afd.Downloader.PieceManager.Progress.{AllSound, all_complete_iff, bitfields, restore-serialize}

-- Three blocks of 4 bytes, the last one of 2.
abbrev three_blocks : BitfieldMan
three_blocks = new_bitfield_man 3 4 10

three_blocks-WellFormed : WellFormed (set_bit three_blocks (pos 1))
three_blocks-WellFormed = set_bit-WellFormed three_blocks (pos 1) (new-WellFormed 3 4 10)

three_blocks-Covers : Covers (set_bit three_blocks (pos 1))
unfolding set_bit new_bitfield_man
three_blocks-Covers = record { block_pos = omega arith; total_pos = omega arith; ceiling = refl }

abbrev small_piece : Piece
small_piece = new_piece 0 100 10 4

small_piece-IsSound : IsSound small_piece
small_piece-IsSound = new_piece-IsSound 0 100 10 4 (omega arith) (omega arith)

abbrev taken_once : Piece
taken_once = (next_unused_block small_piece).0

abbrev taken_twice : Piece
taken_twice = (next_unused_block taken_once).0

next_unused_block_disjoint_example : 100 + 4 ≤ 104
unfolding next_unused_block afd.Downloader.Bitfield.first_missing_unused_index
    afd.Prelude.first_from new_piece new_bitfield_man is_bit_set
    afd.Downloader.Bitfield.Bytes.test_bit afd.Prelude.byte_test
    afd.Downloader.Bitfield.is_use_bit_set afd.Downloader.Bitfield.set_use_bit
    afd.Downloader.Bitfield.Bytes.put_bit afd.Prelude.byte_set
    afd.Downloader.Bitfield.block_length_at
next_unused_block_disjoint_example =
    next_unused_block_disjoint small_piece small_piece-IsSound refl refl

abbrev config : DownloadConfig
config = record {
  max_connections = 4;
  min_chunk_size = 2;
  max_chunk_size = 100;
  default_chunk_size = 20;
}

abbrev two_connections : DownloadConfig
two_connections = record {
  max_connections = 2;
  min_chunk_size = 2;
  max_chunk_size = 8;
  default_chunk_size = 8;
}

abbrev two_pieces : List Piece
two_pieces = new_piece 0 0 10 4 ∷ new_piece 1 10 10 4 ∷ []

split_runs :
    map
      (λ (p : Piece). p.start)
      (elim (split_file_into_pieces 30 config) [ none ↦ [] | some ps ↦ ps ])
    ≡ 0 ∷ 7 ∷ 14 ∷ 21 ∷ 28 ∷ []
unfolding split_file_into_pieces afd.Downloader.Split.base_piece_size
    afd.Downloader.Split.choose_piece_size afd.Downloader.Split.count_pieces
    afd.Downloader.Split.cut new_piece
split_runs = refl

split-Tiles_example : Tiles 0 0 (new_piece 0 0 8 262144 ∷ new_piece 1 8 2 262144 ∷ []) 10
unfolding split_file_into_pieces afd.Downloader.Split.base_piece_size
    afd.Downloader.Split.choose_piece_size afd.Downloader.Split.count_pieces
    afd.Downloader.Split.cut
split-Tiles_example =
    split-Tiles 10 two_connections {ps = new_piece 0 0 8 262144 ∷ new_piece 1 8 2 262144 ∷ []}
      (omega arith) refl

abbrev selecting : String → PieceManager
selecting word = new_piece_manager two_pieces 20 word

get_piece-exclusive_example :
    (p : Piece) × (get_elem? (selecting "random").pieces 1 ≡ some p)
    × (p.status ≡ idle)
    × (get_elem? (get_piece_for_download (λ n. n - 1) (selecting "random") 9).0.pieces 1
        ≡ some (record p { status = active; owner_cuid = 9 }))
    × ((j : ℕ)
        → 1 ≢ j
        → get_elem? (get_piece_for_download (λ n. n - 1) (selecting "random") 9).0.pieces j
          ≡ get_elem? (selecting "random").pieces j)
unfolding get_piece_for_download afd.Downloader.PieceManager.select_piece new_piece_manager
    afd.Downloader.PieceManager.idle_from new_piece
get_piece-exclusive_example = get_piece-exclusive (λ n. n - 1) (selecting "random") 9 refl

abbrev no_pieces : PieceManager
no_pieces = new_piece_manager [] 0 "geom"

abbrev all_taken : PieceManager
all_taken =
    (get_piece_for_download (λ n. 0) (get_piece_for_download (λ n. 0) (selecting "inorder") 1).0
      2).0

abbrev one_taken : PieceManager
one_taken =
    (get_piece_for_download (λ n. 0) (new_piece_manager (new_piece 0 0 10 4 ∷ []) 10 "geom") 1).0

abbrev first_left : PieceManager
first_left = (get_piece_for_download (λ n. 0) (selecting "geom") 1).0

first_left-idle : idle_at first_left.pieces 0 ≡ true
unfolding idle_at get_piece_for_download afd.Downloader.PieceManager.select_piece new_piece_manager
    afd.Downloader.PieceManager.geom_search afd.Downloader.PieceManager.idle_at_index
    afd.Downloader.PieceManager.geom_index new_piece afd.Downloader.PieceManager.claim
first_left-idle = refl

two_pieces-AllSound : AllSound two_pieces
two_pieces-AllSound = (
  new_piece-IsSound 0 0 10 4 (omega arith) (omega arith),
  (new_piece-IsSound 1 10 10 4 (omega arith) (omega arith), tt),
)

all_complete_iff_example :
    (all_complete two_pieces ≡ true) ↔ (0 + total_completed_length two_pieces ≡ 20)
unfolding new_piece
all_complete_iff_example =
    all_complete_iff 0 0 20 two_pieces two_pieces-AllSound
      (refl, refl, omega arith, (refl, refl, omega arith, refl))

-- An encoding that writes the bytes as they are.
abbrev plain : Base64 (List ℕ)
plain = record { encode = λ bs. bs; decode = λ bs. some bs }

abbrev downloaded : List Piece
downloaded = complete_block (new_piece 0 0 10 4) (pos 1) ∷ new_piece 1 10 10 4 ∷ []

restore-serialize_example :
    bitfields
      (restore_piece_bitfields plain two_pieces (serialize_piece_bitfields plain downloaded))
    ≡ bitfields downloaded
unfolding complete_block is_all_bit_set afd.Downloader.Bitfield.unset_use_bit set_bit new_piece
    new_bitfield_man afd.Downloader.Bitfield.Bytes.test_bit afd.Prelude.byte_test
    afd.Downloader.Bitfield.Bytes.put_bit
restore-serialize_example =
    restore-serialize plain (λ bs. refl) two_pieces downloaded (refl, refl, (refl, refl, tt))
