-- ===== src/Rot13.antt =====
-- The example server (examples/rot13server), an application of the library.
pub mod Encode
pub mod Connection
pub mod Server
pub mod Conversation
pub mod Owners
pub mod Handshake
pub mod Serving
pub mod Answers
