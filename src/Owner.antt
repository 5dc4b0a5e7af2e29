-- ===== src/Owner.antt =====
-- owner: the tab that holds the port.
pub mod Election
pub mod WriteQueue
pub mod ReceiveBuffer
pub mod PortSupervisor
pub mod PortMatcher
pub mod PortWrite
pub mod Unanswered
