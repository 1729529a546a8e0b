-- ===== src/Gateway/Stream.antt =====
-- stream.go of the gateway: the answer to a request that asks for a stream.
pub mod Frame
pub mod Sink
pub mod Rounds
pub mod Attempt
pub mod Closes
pub mod Endings
pub mod Effects
pub mod Serve
pub mod Success
pub mod Keeps
pub mod Order
pub mod Agreement
