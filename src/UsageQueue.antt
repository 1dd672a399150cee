-- ===== src/UsageQueue.antt =====
-- internal/usagequeue/poller.go: side usage events, read from a queue over the Redis protocol or HTTP.
pub mod Resp
pub mod Payload
pub mod Batch
