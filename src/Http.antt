-- ===== src/Http.antt =====
-- src/server.c: how a request is read, and the answers that server.c sends itself.
pub mod RequestLine
pub mod Headers
pub mod Reading
pub mod Body
