-- ===== src/Query.antt =====
-- services/query: the read side of the platform.
pub mod Bfs
pub mod Hops
pub mod Pending
pub mod Blast
pub mod Reachability
pub mod WhatIf
pub mod ChangeFeed
pub mod Rca
mod Tests
