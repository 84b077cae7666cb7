-- ===== src/Demos.antt =====
-- _examples/: the programs that show the library in use.
pub mod Dump
pub mod FileStore
pub mod Articles
pub mod Login
pub mod Seeds
