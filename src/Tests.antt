-- ===== src/Tests.antt =====
-- The theorems at concrete inputs.
mod Memory
mod Answering
mod Sessions
mod Hashes
mod Servers
mod Peers
mod Exchanges
mod Systems
mod Joined
mod Orders
mod Programs
