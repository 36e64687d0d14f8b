-- ===== src/Tests.antt =====
-- Examples: a kernel in which the laws hold, and the theorems at concrete inputs.
pub mod Toy
pub mod Buses
pub mod Exits
pub mod Guests
pub mod Agents
pub mod Moves
pub mod Lives
pub mod Programs
pub mod Endings
pub mod Files
pub mod Spaces
