-- ===== src/Tests.antt =====
-- Tests of the definitions at concrete inputs.
mod Queue
mod Downloads
mod Cluster
mod Transfers
mod Network
mod Servers
