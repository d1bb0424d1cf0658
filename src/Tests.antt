-- ===== src/Tests.antt =====
-- Concrete runs: small functions for what the code takes from libbsp and the C library, and the
-- theorems at inputs of the program.
pub mod Numbers
pub mod Json
pub mod Http
pub mod Queue
pub mod Packets
pub mod Clients
pub mod Connect
pub mod Conf
pub mod Lua
pub mod Script
pub mod Global
pub mod Standard
pub mod Workers
pub mod Startup
pub mod Utils
