-- ===== src/Desktop.antt =====
-- The desktop application, apps/desktop.
pub mod Service
pub mod Hook
pub mod Accessibility
pub mod Shell
pub mod Palette
pub mod Native
pub mod Settings
pub mod App
