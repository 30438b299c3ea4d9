-- ===== src/Message.antt =====
-- source/modules/eagine/core/message.cpp and message_impl.cpp: messages, and the containers that
-- hold them on their way.
pub mod Info
pub mod Sweep
pub mod Queue
pub mod Storage
pub mod Serialized
pub mod Connection
mod Tests
