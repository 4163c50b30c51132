-- ===== src/Blog.antt =====
-- pre-cxx20/blog-2020-09: a client of an exchange's websocket interface that shuts down on a confirmed
-- interrupt.
pub mod Transport
pub mod Sigint
pub mod Application
