-- ===== src/Server.antt =====
-- src/server/http_server.cpp: the chat prompt, thoughts split from answers, streamed answers and the
-- handling of a chat request.
pub mod Think
pub mod Completion
pub mod Stream
pub mod Chat
mod Tests
