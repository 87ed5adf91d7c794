-- ===== src/Shadowsocks.antt =====
-- Package shadowsocks: the handlers that send what comes from the TUN device through a Shadowsocks proxy,
-- and the checks that the proxy works. The Shadowsocks client is not of this repository.
pub mod Connectivity
pub mod Udp
pub mod Tcp
