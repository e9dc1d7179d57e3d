-- ===== src/Json.antt =====
-- include/dptree.hpp and include/dptree_json.hpp: trees of typed values, and how they are written
-- as JSON.
pub mod Values
pub mod Writer
pub mod Grammar
pub mod Wellformed
