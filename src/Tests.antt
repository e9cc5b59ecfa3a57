-- ===== src/Tests.antt =====
-- Concrete inputs, and the theorems applied to them.
mod Wire
mod Codec
mod Fixtures
mod Actions
mod Guardian
mod Files
mod Web
mod Watcher
mod Main
mod Services
mod Stop
mod Boot
mod Race
