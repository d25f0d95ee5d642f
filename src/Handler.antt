-- ===== src/Handler.antt =====
-- handler/: the operations of the service, each from a decoded request to its reply.
pub mod Operations
pub mod Entries
pub mod Keeping
pub mod Responses
pub mod Lookup
pub mod Rules
pub mod Consistency
pub mod Listing
pub mod Keys
pub mod KeyState
pub mod Rotation
pub mod Import
pub mod Tags
pub mod Aliases
pub mod Grants
pub mod Crypto
pub mod Mac
pub mod Signing
pub mod KeyPairs
pub mod DataKeys
pub mod Session
