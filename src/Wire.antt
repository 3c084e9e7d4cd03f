-- ===== src/Wire.antt =====
-- internal/sofarpcwire: the Hessian encoding of SOFARPC requests and responses.
pub mod Result
pub mod Utf8
pub mod Writer
pub mod Reader
pub mod RoundTrip
pub mod Totality
pub mod Decoder
pub mod Encoder
pub mod Requests
