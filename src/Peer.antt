-- ===== src/Peer.antt =====
-- P2PPeer/P2PPeer: the program of a peer, one module for each of its classes.
pub mod Winsock
pub mod Sha1
pub mod FileHash
pub mod Files
pub mod Client
pub mod Sharing
pub mod Download
pub mod Menu
pub mod Serving
pub mod Passing
pub mod Network
