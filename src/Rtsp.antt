-- ===== src/Rtsp.antt =====
-- What WifiDisplaySink.cpp and WifiDisplaySource.cpp share: the texts of RTSP, the parsed message,
-- and the handlers that wait for responses.
pub mod Text
pub mod Message
pub mod Machine
pub mod Pending
pub mod Frame
