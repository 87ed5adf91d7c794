-- ===== src/Ipmap.antt =====
-- Package intra/doh/ipmap: the IP addresses known for each host name.
pub mod Set
pub mod Shuffle
pub mod Map
pub mod Abstract
