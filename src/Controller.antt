-- ===== src/Controller.antt =====
-- internal/controller: the loop that renders and publishes, and the status of the templates.
pub mod RenderLoop
pub mod Wakeup
pub mod TemplateStatus
pub mod Reconcile
pub mod Cluster
pub mod Primer
pub mod Startup
pub mod Metrics
pub mod Events
pub mod Watches
pub mod Tests
