-- ===== src/Player.antt =====
-- sdk/js/packages/player: the player's request handler and the state behind its component.
pub mod Keys
pub mod Country
pub mod Process
pub mod Views
pub mod Urls
pub mod Media
pub mod Reports
pub mod Subtitles
pub mod Thumbnails
mod Tests
