-- ===== src/Doh.antt =====
-- Package intra/doh: DNS queries over HTTPS.
pub mod Message
pub mod Padding
pub mod Transport
pub mod Dial
pub mod Forward
pub mod Certificate
