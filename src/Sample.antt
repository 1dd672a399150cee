-- ===== src/Sample.antt =====
-- internal/proxy/proxy.go: the bounded samples that the proxy keeps of the bodies it forwards.
pub mod Limited
pub mod PrefixTail
