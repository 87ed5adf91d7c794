-- ===== src/Intra.antt =====
-- Package intra: the handlers of the sockets that come from the TUN device.
pub mod Udp
pub mod Session
pub mod Tcp
pub mod Protect
pub mod Mobile
