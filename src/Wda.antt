-- ===== src/Wda.antt =====
-- The client of WebDriverAgent (internal/driver/wda): the elements of a page source, the HTTP client,
-- and the manager of a session.
pub mod Elements
pub mod Preorder
pub mod Payload
pub mod Client
pub mod Sessions
pub mod Named
pub mod Full
pub mod Cached
mod Tests
