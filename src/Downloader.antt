-- ===== src/Downloader.antt =====
-- internal/downloader: pieces of a file and the blocks in them.
pub mod Bitfield
pub mod Piece
pub mod Worker
pub mod Requests
pub mod Netrc
pub mod Adaptive
pub mod ServerStat
pub mod Limiter
pub mod Retry
pub mod Split
pub mod PieceManager
