-- ===== src/Examples.antt =====
-- Concrete inputs: the theorems at values that run the code.
mod Bodies
mod Events
mod Failures
mod Parts
mod Prices
mod Queue
mod Refreshes
mod Requests
mod Streams
mod Usages
