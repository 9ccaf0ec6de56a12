-- ===== src/Tests.antt =====
-- Each theorem with hypotheses applied to concrete data, a module for each part.
mod Loop
mod Ledger
mod Events
mod Names
mod Authz
mod IxoSwap
mod Transactions
mod Assembly
mod TokenEvents
mod DaoStakes
mod DaoModules
mod Wasm
mod Claims
mod Epochs
mod ArchiveApi
mod DaoSnapshot
mod V7Snapshot
mod TokenClasses
