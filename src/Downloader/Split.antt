-- ===== src/Downloader/Split.antt =====
-- internal/downloader/chunk.go, `SplitFileIntoPieces`, and the size limits of `DownloadConfig` and their
-- check in pkg/config/config.go.
pub mod Cover
use afd.Prelude.{
  ℕ, zero, suc, ◌+◌, ◌-◌, ◌*◌, ◌/◌, ◌%◌, Bool, true, false, ◌&&◌, ◌||◌, List, [], ◌∷◌, map, Option,
  none, some, arith, if◌then◌else◌, ltb, leb, ◌==◌, ℤ, pos, sub_ℕ, ◌+ℤ◌, ◌-ℤ◌,
}
use mathlib.Core.Option
use afd.Downloader.Piece.{Piece, new_piece}

-- The fields that the split reads. `Validate` refuses negative ones.
pub record DownloadConfig : Type 0 where
  pub max_connections : ℕ
  pub min_chunk_size : ℕ
  pub max_chunk_size : ℕ
  pub default_chunk_size : ℕ

-- The tests of `DownloadConfig.Validate` on these fields.
unfoldable pub validate : DownloadConfig → Bool
validate c =
    leb 1 c.max_connections
    && leb c.max_connections 64
    && leb c.min_chunk_size c.max_chunk_size
    && leb c.min_chunk_size c.default_chunk_size
    && leb c.default_chunk_size c.max_chunk_size

abbrev pub default_block_length : ℕ
default_block_length = 262144

-- `DefaultChunkSize` within the limits.
unfoldable pub base_piece_size : DownloadConfig → ℕ
base_piece_size c =
    let low : ℕ =
      if ltb c.default_chunk_size c.min_chunk_size
      then c.min_chunk_size
      else c.default_chunk_size in
    if ltb c.max_chunk_size low then c.max_chunk_size else low

unfoldable pub count_pieces : ℕ → ℕ → ℕ
count_pieces file_size piece_size =
    if file_size % piece_size == 0 then file_size / piece_size else file_size / piece_size + 1

-- The piece size after the adjustment for fewer pieces than connections.
unfoldable pub choose_piece_size : ℕ → DownloadConfig → ℕ
unfolding base_piece_size
choose_piece_size file_size c =
    let size : ℕ = base_piece_size c in
    let adjusted : ℕ = file_size / c.max_connections in
    if ltb 0 c.max_connections
      && ltb (count_pieces file_size size) c.max_connections
      && ltb c.min_chunk_size size
      && leb c.min_chunk_size adjusted
    then adjusted
    else size

-- The loop that cuts the file, from piece `i` on.
unfoldable pub cut : ℕ → ℕ → ℕ → ℕ → List Piece
cut zero i piece_size file_size = []
cut (suc rounds) i piece_size file_size =
    let start : ℕ = i * piece_size in
    let len : ℕ = if ltb file_size (start + piece_size) then file_size - start else piece_size in
    new_piece i start len default_block_length ∷ cut rounds (i + 1) piece_size file_size

-- `none` is the run-time panic of a division by a piece size of 0.
unfoldable pub split_file_into_pieces : ℕ → DownloadConfig → Option (List Piece)
split_file_into_pieces file_size c =
    let size : ℕ = choose_piece_size file_size c in
    if file_size == 0
    then some (new_piece 0 0 0 default_block_length ∷ [])
    else if base_piece_size c == 0 || size == 0
    then none
    else some (cut (count_pieces file_size size) 0 size file_size)

pub data ChunkStatus : Type 0 where
  chunk_pending chunk_downloading chunk_done chunk_failed : ChunkStatus

pub record Chunk : Type 0 where
  pub chunk_start : ℕ
  pub chunk_end : ℤ
  pub downloaded : ℕ
  pub chunk_status : ChunkStatus

-- `End` is inclusive, so it is -1 for the empty file.
unfoldable pub chunk_of : Piece → Chunk
chunk_of p = record {
  chunk_start = p.start;
  chunk_end = sub_ℕ (p.start + p.length) 1;
  downloaded = 0;
  chunk_status = chunk_pending;
}

unfoldable pub split_file_into_chunks : ℕ → DownloadConfig → Option (List Chunk)
split_file_into_chunks file_size c = Option.map (map chunk_of) (split_file_into_pieces file_size c)

-- `Size` and `Remaining`.
unfoldable pub chunk_size : Chunk → ℤ
chunk_size c = c.chunk_end -ℤ pos c.chunk_start +ℤ pos 1

unfoldable pub chunk_remaining : Chunk → ℤ
chunk_remaining c = chunk_size c -ℤ pos c.downloaded
