-- ===== src/Tests.antt =====
-- The theorems at concrete inputs, and the data that they are tried on.
mod Stream
mod Net
mod Sink
mod Display
mod Source
mod Codec
mod Surface
