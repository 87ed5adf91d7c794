-- ===== src/Net.antt =====
-- What the program uses of Go's package `net`: addresses, connections and the dialer.
pub mod Ip
pub mod Conn
pub mod Dialer
pub mod Writing
