-- ===== src/Tests.antt =====
-- Tests of the definitions and instances of the theorems at concrete inputs.
mod Lab
mod Requests
mod Judge
mod Plans
mod Egress
mod Domain
mod Store
mod Simulation
mod Shell
mod Baseline
mod Runner
