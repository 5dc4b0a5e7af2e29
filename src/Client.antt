-- ===== src/Client.antt =====
-- client: one tab's view of the configurations it uses.
pub mod Session
pub mod TabSlot
pub mod Deadline
pub mod PendingWrites
pub mod AcceptedWrites
pub mod OwnerTerms
