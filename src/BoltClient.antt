-- ===== src/BoltClient.antt =====
-- internal/boltclient/client.go: the frames of BOLT v1. A connection is the bytes that it delivers
-- up to its end.
pub mod SimpleMap
pub mod Frame
pub mod RoundTrip
