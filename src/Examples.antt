-- ===== src/Examples.antt =====
-- The theorems at concrete inputs, and the behaviour of the definitions on some.
mod Splitting
mod Threads
mod Addresses
mod DnsLibrary
mod Padding
mod Queries
mod Dialing
mod Framing
mod Sockets
mod Resolvers
mod Copying
mod Tunnels
mod Proxies
mod Creating
mod Commands
