-- ===== src/Tests.antt =====
-- The theorems at concrete inputs.
mod Toy
mod Framing
mod Messages
mod Bridging
mod Streaming
mod Connecting
mod Frontends
mod Responding
mod Typing
mod Inferring
