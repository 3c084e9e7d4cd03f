-- ===== src/Wire/Decoder.antt =====
-- internal/sofarpcwire/decoder.go: the reader of Hessian values.
pub mod State
pub mod Scalars
pub mod Tables
pub mod Values
pub mod Reads
pub mod Leaves
pub mod Steps
pub mod Lists
pub mod Totality
pub mod Decode
