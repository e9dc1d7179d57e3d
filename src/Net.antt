-- ===== src/Net.antt =====
-- src/connection.cpp and src/tcp_server.cpp: a connection with its translator, and who holds them.
pub mod Session
pub mod Lifetime
pub mod Server
pub mod Each
pub mod Events
pub mod OneRead
pub mod Draining
pub mod Wialon
