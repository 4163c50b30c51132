-- ===== src/Chatterbox.antt =====
-- pre-cxx20/chatterbox: a client that makes connections to the echo server and echoes what it reads.
pub mod Connection
pub mod Pool
pub mod Console
