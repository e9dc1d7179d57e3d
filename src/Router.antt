-- ===== src/Router.antt =====
-- src/request_router.{hpp,cpp}: the loaded dispatchers, the routes from a port and a translator to
-- dispatchers, and how a tree is handed to all of them.
pub mod Combiner
pub mod Routes
pub mod Exceptions
pub mod Process
pub mod Order
pub mod Targets
