-- ===== src/Memory.antt =====
-- internal/store/memory/store.go: the in-memory store. Its state is the record `Store`; a method
-- takes the store and returns its result with the new store. The lock of the source serialises
-- the methods, so a run of the store is a sequence of calls.
pub mod Defs
pub mod Ledger
pub mod Access
pub mod Numbering
pub mod Calls
pub mod Provision
