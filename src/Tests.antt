-- ===== src/Tests.antt =====
-- Runs of the definitions on concrete inputs, and the theorems at inputs that meet their conditions.
mod Mtp
mod Rsd
mod Io
mod Endpoints
mod Websocket
mod Tf
mod Web
mod Node
