-- ===== src/Chat.antt =====
-- internal/service/chat: chats, their members and roles, and polls.
pub mod Base
pub mod Access
pub mod Events
pub mod Members
pub mod Moderation
pub mod Steps
pub mod Polls
pub mod Folders
pub mod Deletion
mod Tests
