-- ===== src/Portal.antt =====
-- The portal service: portal/app.
pub mod Limiter
pub mod Xml
pub mod Store
pub mod Security
pub mod Outbound
pub mod Request
pub mod App
pub mod Client
pub mod Links
pub mod Monitor
pub mod Feeds
pub mod Pages
pub mod Api
pub mod Proxy
pub mod Config
pub mod Database
mod Tests
