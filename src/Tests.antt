-- ===== src/Tests.antt =====
-- Runs on concrete inputs, and each theorem with hypotheses at an input that meets them.
mod Forwards
mod Requests
mod Frames
mod Handlers
mod Commands
mod Connections
mod Certificates
mod Programs
mod Threads
