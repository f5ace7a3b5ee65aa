-- ===== src/Tests.antt =====
-- Concrete runs of the theorems, on an ASCII text.
mod Wire
mod Policy
mod Stores
mod Resolver
mod Flight
mod Service
mod Redis
mod Listeners
mod Admin
mod Settings
