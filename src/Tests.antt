-- ===== src/Tests.antt =====
-- Concrete inputs: the theorems at work on them, and runs.
mod Fixtures
mod Ledger
mod Reads
mod Handler
mod Conversation
mod Tenants
mod Streaming
mod Business
mod People
