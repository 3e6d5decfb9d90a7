-- ===== src/Tests.antt =====
-- The properties at concrete inputs.
mod Memory
mod Machines
mod Hosts
mod Composition
mod Composed
mod Requests
mod Endpoints
mod Runs
mod Parts
mod Volumes
mod Disks
mod Variables
mod Wires
