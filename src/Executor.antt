-- ===== src/Executor.antt =====
-- src/executor.c: commands that are run.
pub mod BodyReader
pub mod Capture
pub mod Stream
pub mod Pipe
pub mod Output
