-- ===== src/Script.antt =====
-- server/script.c: libbsp's values and Lua's (Lua, Push, Read, RoundTrip), calls (Call), what
-- the workers do (Worker), and the containers of scripts (Container).
pub mod Lua
pub mod Push
pub mod Read
pub mod RoundTrip
pub mod Call
pub mod Worker
pub mod Container
