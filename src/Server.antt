-- ===== src/Server.antt =====
-- src/server.c: the life of a connection, and of the server.
pub mod Route
pub mod Client
pub mod Start
pub mod Program
