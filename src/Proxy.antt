-- ===== src/Proxy.antt =====
-- internal/proxy/proxy.go: what is drawn from the usages of one stream.
pub mod Merge
pub mod Finalize
pub mod NonStream
pub mod Record
pub mod Scan
