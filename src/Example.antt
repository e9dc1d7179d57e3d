-- ===== src/Example.antt =====
-- example: a translator and a dispatcher that show how plugins are written.
pub mod Echo
pub mod Logger
