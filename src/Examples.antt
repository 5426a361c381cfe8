-- ===== src/Examples.antt =====
-- Accounts, requests and an environment with concrete values, and the theorems applied to them.
pub mod Data
mod Accounts
mod Amounts
mod Apps
mod Chains
mod Ids
mod Signed
mod Signing
mod Servers
mod Channels
mod Published
mod Registries
mod Shown
mod Sent
mod Terminal
mod Paid
