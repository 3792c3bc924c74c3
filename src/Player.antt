-- ===== src/Player.antt =====
-- The player of src/game_server: state, resources, items, level, daily sign-in and mails.
pub mod State
pub mod Values
pub mod Items
pub mod Level
pub mod Resources
pub mod SignIn
pub mod Mail
pub mod Draw
pub mod Shop
