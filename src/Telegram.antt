-- ===== src/Telegram.antt =====
-- packages/channels/src/telegram/utils.ts: the texts of the Telegram channel.
pub mod Split
