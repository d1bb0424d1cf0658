-- ===== src/Utils.antt =====
-- src/utils: the trace and the log (Trace), and dumps (Hex, Dump) of debug.c.
pub mod Trace
pub mod Hex
pub mod Dump
