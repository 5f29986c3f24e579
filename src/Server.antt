-- ===== src/Server.antt =====
-- The server of the network lab: lab-5-network/mcdonalds.c.
pub mod Orders
pub mod Buffer
pub mod Threads
pub mod Start
pub mod Listening
pub mod Closing
mod Tests
