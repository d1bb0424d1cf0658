-- ===== src/Server.antt =====
-- src/server: the script task queue (Queue), packets (Packet), the data path (Input), the senders
-- (Send), channels (Clients), sessions (Sessions), connections (Connect), the configuration (Conf),
-- the scripts of the workers (Workers), the clock (Clock) and the start (Startup).
pub mod Status
pub mod Task
pub mod Queue
pub mod Session
pub mod Packet
pub mod Link
pub mod Send
pub mod Clients
pub mod Sessions
pub mod Connect
pub mod Conf
pub mod Input
pub mod Workers
pub mod Clock
pub mod Startup
