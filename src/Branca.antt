-- ===== src/Branca.antt =====
-- branca/base62.go and branca/branca.go: encrypted tokens and their encoding.
pub mod Base62
pub mod Token
pub mod Shared
