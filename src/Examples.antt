-- ===== src/Examples.antt =====
-- Concrete pools, stores and requests, and what the theorems say of them.
mod Data
mod Pools
mod Restores
mod Devices
mod Cpusets
mod Hosts
mod Sandboxes
mod Waits
mod Targets
mod Containers
