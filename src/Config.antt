-- ===== src/Config.antt =====
-- internal/config: templates, merging, rendering and writing of the Gatus configuration.
pub mod Endpoint
pub mod Merge
pub mod Template
pub mod Resolve
pub mod Render
pub mod Writer
pub mod Tests
