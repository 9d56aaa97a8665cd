-- ===== src/Dashboard.antt =====
-- client/dashboard: the dashboard's own logic, apart from its pages' layout.
pub mod Toast
pub mod Thumbnail
pub mod Buckets
pub mod Keys
pub mod Activity
pub mod Pages
pub mod Billing
pub mod Figures
pub mod Home
pub mod Settings
pub mod Navigation
pub mod Routes
mod Tests
