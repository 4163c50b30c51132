-- ===== src/MemoryTest.antt =====
-- pre-cxx20/memory-test/server.cpp: an echo server after an example of Beast.
pub mod Session
pub mod Listener
pub mod Client
mod Tests
