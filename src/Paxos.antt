-- ===== src/Paxos.antt =====
-- src/paxos.rs: one node of a Paxos group.
pub mod Message
pub mod State
pub mod Instance
pub mod Deliver
pub mod Group
pub mod Multi
pub mod Handler
pub mod Timer
pub mod Log
