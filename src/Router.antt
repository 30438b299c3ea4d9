-- ===== src/Router.antt =====
-- The router (source/modules/eagine/core/router.cpp and router_impl.cpp).
pub mod Ids
pub mod Ident
pub mod Subscriptions
pub mod Wire
pub mod Node
pub mod Nodes
pub mod Routing
pub mod Blobs
pub mod Dispatch
pub mod Messages
pub mod Pending
pub mod Adoption
pub mod Handlers
pub mod Timeouts
mod Tests
