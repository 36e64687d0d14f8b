-- ===== src/Main.antt =====
-- src/main.cpp: the program.
pub mod State
pub mod Device
pub mod Wiring
pub mod CpuidTable
pub mod GuestCpuid
pub mod Callbacks
pub mod Upkeep
pub mod Account
pub mod Process
pub mod Mappings
pub mod Runs
pub mod Program
