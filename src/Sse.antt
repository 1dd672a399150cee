-- ===== src/Sse.antt =====
-- internal/proxy/proxy.go, handleStream: how the bytes of an event stream become events.
pub mod Lines
pub mod Assembler
pub mod ErrorPayloads
