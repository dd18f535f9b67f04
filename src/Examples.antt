-- ===== src/Examples.antt =====
-- Theorems of the library at concrete inputs, and runs of the definitions.
mod Store
mod Wal
mod Engine
mod Server
mod Serve
mod Log
