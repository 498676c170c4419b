-- ===== src/Server.antt =====
-- P2PFileServer/P2PFileServer/P2PFileServer.cpp: the central server, one module for each part.
pub mod Messages
pub mod Sqlite
pub mod Queries
pub mod Commands
pub mod Replies
pub mod Session
pub mod Options
pub mod Startup
pub mod Listen
pub mod Count
pub mod Status
pub mod Console
pub mod System
pub mod Index
pub mod Main
pub mod Program
