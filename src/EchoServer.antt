-- ===== src/EchoServer.antt =====
-- pre-cxx20/echo_server: a websocket server that echoes every message for half a minute.
pub mod Connection
pub mod Server
pub mod System
