-- ===== src/Discord.antt =====
-- src/discord: the adapter between the gateway of Discord and the game, the listing of messages, and
-- the permissions that a channel needs. The discord.js library is a parameter.
pub mod Pages
pub mod Escaping
pub mod Intake
pub mod Listing
pub mod Permissions
