-- ===== src/Service.antt =====
-- service/: checked conversions and the header of a ciphertext blob.
pub mod Safeconv
pub mod Ciphertext
