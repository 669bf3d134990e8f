-- ===== src/Router.antt =====
-- The router: the routes, the radix tree that finds the route of a path, and the registry that
-- changes both and writes to the storage (internal/router).
pub mod Route
pub mod Radix
pub mod Registry
mod Examples
