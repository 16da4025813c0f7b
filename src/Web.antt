-- ===== src/Web.antt =====
-- The web application, apps/web.
pub mod Socket
pub mod Live
pub mod Auth
pub mod Config
pub mod Chat
pub mod Mentions
pub mod Page
pub mod Services
pub mod Api
pub mod Composer
pub mod Subdomain
pub mod Forms
pub mod Webhooks
pub mod Keys
pub mod Entry
pub mod ChannelForm
pub mod Profile
pub mod Members
pub mod NewDm
pub mod Tunnel
pub mod Search
pub mod Startup
