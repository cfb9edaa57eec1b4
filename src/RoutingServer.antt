-- ===== src/RoutingServer.antt =====
-- The routing server of home_exam/routing_server, and what it shares with the nodes.
pub mod Network
pub mod Validation
pub mod AdjacencyMatrix
pub mod RoutingTables
pub mod Dijkstra
pub mod Communication
pub mod Server
pub mod Memory
