-- ===== src/Cost.antt =====
-- internal/cost: the gate that attributes model calls by request headers.
pub mod Headers
pub mod Untouched
pub mod Examples
