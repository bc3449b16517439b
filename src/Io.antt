-- ===== src/Io.antt =====
-- modules/io of the repository.
pub mod Http
pub mod Websocket
pub mod Routes
pub mod Webapp
