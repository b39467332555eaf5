-- ===== src/Resumable.antt =====
-- src/resumable.rs: `Content-Range` parsing, and the upload buffer.
pub mod Number
pub mod Range
pub mod Upload
pub mod Messages
mod Tests
mod UnitTests
