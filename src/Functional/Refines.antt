-- ===== src/Functional/Refines.antt =====
-- The interpreter against the manual.
pub mod State
pub mod Arith
pub mod Shifts
pub mod Control
pub mod Memory
pub mod Handle
pub mod Valid
pub mod Loop
pub mod Safety
