-- ===== src/Boost.antt =====
-- The Boost components that the program calls, as interfaces: each is a record of the operations
-- that the source uses and of what their documentation promises. No definition of theirs is made
-- up here; the models take such a record as a parameter.
pub mod Instances
pub mod Containers
pub mod Io
