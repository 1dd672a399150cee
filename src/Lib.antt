-- ===== src/Lib.antt =====
-- A metering proxy for AI gateways: it forwards requests to providers, samples what comes back,
-- draws token usage from it and writes one event per request to a store.
--
-- A request's path selects an endpoint profile (Profile, Profile/Registry: internal/profile). A
-- body that is not a stream is sampled while it is copied (Sample: limitedBuffer and
-- prefixTailBuffer of internal/proxy/proxy.go). A stream is cut into lines and the lines are put
-- together into events (Sse/Lines, Sse/Assembler: the loop of handleStream and sseEventAssembler);
-- of a failed stream a few payloads are kept (Sse/ErrorPayloads). The events of a Responses stream
-- drive a state machine (Extractor/Responses: internal/extractor/responses_state.go), and the
-- providers' usages become token counts (Extractor/Tokens: internal/extractor/extractor.go); an
-- error response is put in a class (Extractor/Errors: internal/extractor/error.go). What is
-- recorded is settled when the body ends (Proxy/Merge, Proxy/Finalize and Proxy/NonStream:
-- mergeUsageInfo, finalizeStreamUsage and a part of handleNonStream in internal/proxy/proxy.go);
-- what a request asks for is read off its body by scanners that do not decode it (Proxy/Scan), and
-- recordUsage puts the event together (Proxy/Record), both of internal/proxy/proxy.go. The finished
-- event (Event: internal/event) goes through a queue (Writer: internal/writer/writer.go) and is
-- stored as rows (Event/Mapping: internal/event/mapping.go). Beside the proxy, a poller takes usage
-- events from a queue that speaks RESP (UsageQueue: internal/usagequeue/poller.go), and reports
-- look up what a model's usage costs (Pricing: internal/pricing/pricing.go). Manual refreshes of
-- what is known of credentials are throttled (Credential: internal/credential/poller.go).
--
-- A Go struct is a record with its field names; a method that changes its receiver returns the new
-- one. An int64 of a usage is an integer (Common/Int64), and arithmetic on it wraps as Go's does;
-- int lengths and positions are natural numbers. Bytes are lists of numbers, nil being the empty
-- one; texts that are only compared are native strings. Parameters stand for encoding/json (the
-- record Extractor.Json, json.Valid in Sse/Assembler), for the store behind the writer, which is a
-- source of errors, for the extractor that a profile holds as a function value (Proxy/NonStream),
-- for the decoded payloads of the side queue, and for the decoded values and the masking of
-- messages of an error response (Extractor/Errors/Extract). time.Time and float64 are type
-- parameters; what the side queue and the prices do with a float64 are the fields of a record Float
-- of each. `max_slice` in UsageQueue/Resp is the length from which on make panics. A Go map is the
-- list of its entries.
--
-- Loops over bytes run on the length of what is left, which each round shortens. The scanners of
-- Proxy/Scan have the length of what is left and one more as fuel: each round reads a byte or more.
-- The writer and the throttle are each a step relation over the state that goroutines share, a step
-- being what one of them does between two points where another can come in; fields that only the
-- proofs read record what was sent, flushed, lost or let through.
--
-- Not modelled: HTTP and connection handling, the rest of internal/proxy, the database, the quota
-- poller, what the credential poller polls, the connections of the side queue, the YAML of the
-- prices, reports, configuration, metrics and the web interface.
pub mod Common
pub mod Credential
pub mod Event
pub mod Extractor
pub mod Streamproto
pub mod Profile
pub mod Sample
pub mod Sse
pub mod Proxy
pub mod UsageQueue
pub mod Pricing
pub mod Writer
mod Examples
