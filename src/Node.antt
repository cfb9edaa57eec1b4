-- ===== src/Node.antt =====
-- The nodes of home_exam/node.
pub mod Packet
pub mod Messages
pub mod Sender
pub mod Parser
pub mod Program
mod Tests
