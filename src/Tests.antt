-- ===== src/Tests.antt =====
-- A store in memory and toy ciphers to run the models on, and every property at a concrete input.
pub mod Memory
pub mod Samples
mod Services
mod Keys
mod Stores
mod Handlers
mod Creations
mod Requests
mod Macs
mod Signing
mod DataKeys
mod Seeds
mod Lifecycle
mod Listings
mod Sessions
mod Stranded
