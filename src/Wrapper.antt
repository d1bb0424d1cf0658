-- ===== src/Wrapper.antt =====
-- src/wrapper: what the server gives to Lua scripts. The store that they share is in
-- Global, sessions and channels in Sessions, what scripts send to a client in Send and to a
-- channel in Channel, random numbers and Base64 in Misc, the dump of a
-- value in Dump, timers in Timer.
pub mod Global
pub mod Sessions
pub mod Send
pub mod Channel
pub mod Misc
pub mod Dump
pub mod Timer
