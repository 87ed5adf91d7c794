-- ===== src/Outline.antt =====
-- Package outline: the tunnel to a Shadowsocks proxy, and the connectivity check of outline/shadowsocks.
pub mod Connectivity
pub mod Session
pub mod Command
pub mod Mobile
