-- ===== src/Sink.antt =====
-- The sink's side of a Wi-Fi display session.
pub mod Tunnel
pub mod Display
