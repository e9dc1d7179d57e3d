-- ===== src/Tests.antt =====
-- The theorems at concrete inputs, with concrete containers for the libraries.
mod Wialon
mod Redis
mod Pairing
mod Router
mod Plugins
mod Json
mod Dispatcher
mod Net
mod Core
mod Timer
mod Example
mod Main
mod Report
