-- ===== src/Tests.antt =====
-- Small concrete states, the theorems at them, and runs of the code.
mod Versions
mod Paxos
mod Network
mod FreeNode
mod Region
mod Expression
mod Stm
mod Rm
