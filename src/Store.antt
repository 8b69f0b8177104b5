-- ===== src/Store.antt =====
-- internal/store: the tables of the control plane and the statements that change them.
pub mod Table
pub mod Operations
pub mod Queue
pub mod Events
pub mod Tasks
pub mod Interrupts
pub mod CodexSnapshots
