-- ===== src/Wal.antt =====
-- The package wal: operation codes (`Op`), records (`Record`), their bytes (`Format`), the decoder of a
-- stream (`Reader`), the replay (`Replay`), the log writer (`Log`) and Compact (`Compact`).
pub mod Op
pub mod Record
pub mod Format
pub mod Reader
pub mod Replay
pub mod Log
pub mod Compact
