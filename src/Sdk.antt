-- ===== src/Sdk.antt =====
-- The TypeScript SDK, packages/typescript.
pub mod Emitter
pub mod Url
pub mod Realtime
pub mod Rest
