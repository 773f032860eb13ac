-- ===== src/Examples.antt =====
-- Runs of the theorems about the lotun server on concrete states.
mod Text
mod Data
mod Registries
mod Orders
mod Servers
mod Access
mod Stores
mod Wire
mod Clients
mod Splices
mod Paths
mod Runs
mod Configs
mod Commands
