-- ===== src/Exchange.antt =====
-- What the nodes of home_exam/node and the routing server of home_exam/routing_server tell each other:
-- the messages of node_communication.c against those of routing_server_communication.c.
pub mod Registration
pub mod Delivery
mod Tests
