-- ===== src/Cxx20.antt =====
-- cxx20: the echo server written with coroutines.
pub mod Chat
pub mod Server
