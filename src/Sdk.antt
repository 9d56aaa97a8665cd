-- ===== src/Sdk.antt =====
-- sdk/js/packages/sdk: the JavaScript SDK, its request handler and its client class.
pub mod Auth
pub mod Errors
pub mod Services
pub mod Uploads
pub mod Client
pub mod Process
mod Tests
