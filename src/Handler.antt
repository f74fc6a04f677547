-- ===== src/Handler.antt =====
-- src/handler.c: the endpoints.
pub mod Answers
pub mod Upload
pub mod Forwards
pub mod Info
pub mod Exec
pub mod Pipe
pub mod Update
