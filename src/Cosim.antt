-- ===== src/Cosim.antt =====
-- co_simulator/: the comparison of the two models by their traces.
pub mod System
pub mod Setup
pub mod Files
pub mod Compare
pub mod Laws
pub mod Text
pub mod Simulator
pub mod Agrees
