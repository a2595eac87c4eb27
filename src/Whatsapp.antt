-- ===== src/Whatsapp.antt =====
-- packages/modules/whatsapp/domain: conversations with clients over WhatsApp.
pub mod ServiceWindow
pub mod Conversation
pub mod Message
pub mod Tests
