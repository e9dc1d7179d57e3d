-- ===== src/Plugins.antt =====
-- src/plugin_factory.{hpp,cpp}, src/translator_manager.{hpp,cpp} and what src/connection.cpp and
-- src/tcp_server.cpp do with them: the loaded plugins, the ports of translators, and the handlers
-- of a connection.
pub mod Manager
pub mod Ports
pub mod Mapped
pub mod Kept
pub mod Assertion
pub mod Factory
