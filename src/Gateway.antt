-- ===== src/Gateway.antt =====
-- internal/gateway: the handler of the inference API. `Metadata` has the checks of names and
-- identifiers, `Outcome` the results of an attempt and their classes, `World` the state that the
-- handler changes and what it is given from outside, `Attempt` one call of the provider, `Serve`
-- the handler.
pub mod Metadata
pub mod Outcome
pub mod Usage
pub mod Chunk
pub mod World
pub mod Attempt
pub mod Reply
pub mod Request
pub mod Auth
pub mod Finish
pub mod Stream
pub mod Serve
