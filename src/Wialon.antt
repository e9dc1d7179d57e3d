-- ===== src/Wialon.antt =====
-- plugins/translator_wialon/wialon_plugin.{hpp,cpp}: the translator for the Wialon IPS protocol.
pub mod Protocol
pub mod Machine
pub mod Grants
pub mod Token
pub mod Session
pub mod Invariant
pub mod Reading
pub mod Fields
pub mod Dialogue
pub mod Answers
pub mod Logins
pub mod Access
pub mod BlackBox
pub mod Rereads
pub mod Safety
pub mod Events
