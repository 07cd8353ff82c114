-- ===== src/S5.antt =====
-- s5/s5.go: the handshake and the request of a SOCKS5 client, and what is answered.
pub mod Stream
pub mod Address
pub mod Server
pub mod Proxy
mod Reading
mod Requests
mod Conns
mod Rebuilding
mod Accepting
mod Serving
mod Examples
