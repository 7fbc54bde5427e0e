-- ===== src/Tcp.antt =====
-- rabia-engine/src/network/tcp.rs: the transport over TCP. Sockets and tasks are a crate's; what is
-- modelled is the framing of messages, the tasks of a connection, the handshake, the retries, and
-- the table of connections.
pub mod Frame
pub mod Stream
pub mod Handshake
pub mod Connect
pub mod Peers
pub mod Examples
