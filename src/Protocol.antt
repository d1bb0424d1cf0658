-- ===== src/Protocol.antt =====
-- src/protocol: the frame and the protocols that do nothing to it (Frame), and HTTP (Http).
pub mod Frame
pub mod Http
