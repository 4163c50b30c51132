-- ===== src/FmexClient.antt =====
-- pre-cxx20/fmex_client: a client of an exchange's websocket interface.
pub mod StopRegister
pub mod Connection
pub mod App
