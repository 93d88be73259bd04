-- ===== src/Docker.antt =====
-- internal/modules/v2/docker: containers and stacks.
pub mod Paths
pub mod Compose
pub mod Engine
pub mod Containers
pub mod Update
pub mod Handler
pub mod Resources
