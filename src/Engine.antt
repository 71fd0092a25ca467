-- ===== src/Engine.antt =====
-- packages/engine.io: the sessions of Engine.IO.
pub mod Cors
pub mod Server
pub mod Session
pub mod Socket
