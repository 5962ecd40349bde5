-- ===== src/Discovery.antt =====
-- internal/discovery: from annotated Kubernetes objects to endpoints without their templates.
pub mod Annotations
pub mod Specs
pub mod Naming
pub mod Entrypoints
pub mod Paths
pub mod Rule
pub mod Service
pub mod IngressRoute
pub mod IngressRouteTcp
pub mod Tests
