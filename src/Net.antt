-- ===== src/Net.antt =====
-- ANetworkSession.cpp: sessions on sockets, and the thread that serves them.
pub mod Stream
pub mod Session
pub mod Network
