-- ===== src/Protocol.antt =====
-- The wire protocol of src/tinydb/protocol/: frames, the reader that finds them in a stream, and
-- messages.
pub mod Frame
pub mod Reader
pub mod Platform
pub mod Values
pub mod Messages
