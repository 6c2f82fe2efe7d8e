-- ===== src/Examples.antt =====
-- Runs on concrete inputs.
mod Memory
mod Protocol
mod Patterns
mod Stores
mod KeySpaces
mod Blocking
mod Chains
mod Dispatching
mod Texts
