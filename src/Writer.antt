-- ===== src/Writer.antt =====
-- internal/writer/writer.go: the queue between the request handlers and the store. The state is what
-- the goroutines share, and the loop's batch; a step is what one of them does between two points
-- where another can come in. Enqueue takes three: it tests `stopped`, it sends, it counts. The sleep
-- before the second attempt, the metrics' copies of the counters and the log are not modelled. The
-- queue is taken to have a positive capacity.
pub mod Steps
pub mod Conserved
pub mod Delivery
use metering_proxy.Common.{
  ℕ, suc, ◌+◌, ◌-◌, Bool, true, false, ◌&&◌, ◌||◌, not, List, [], ◌∷◌, ◌++◌, length, ltb, leb,
  if◌then◌else◌,
}

-- Where `loop` is. Before Start, `started` is 0; `finished` is after its return.
pub data Phase : Type 0 where
  not_started : Phase
  looping : Phase
  draining : Phase
  finished : Phase

-- The int64 queueDepth is what was added to it less what was taken off, which can be negative for a
-- moment. The last three fields are kept for the proofs: the events that Enqueue sent, those of the
-- batches that were flushed, and those of the batches that both attempts failed to insert.
pub record BatchWriter (E : Type 0) : Type 0 where
  pub queue : List E
  pub batch : List E
  pub depth_added : ℕ
  pub depth_removed : ℕ
  pub parse_errors : ℕ
  pub db_write_errors : ℕ
  pub dropped_events : ℕ
  pub stopped : Bool
  pub phase : Phase
  pub admitted : ℕ  -- calls of Enqueue that passed the test and have not sent yet
  pub uncounted : ℕ  -- calls of Enqueue that sent and have not counted yet
  pub sent : List E
  pub flushed : List E
  pub lost : List E

-- The errors of InsertEvents: of the first attempt and of the second.
pub record Attempts : Type 0 where
  pub first_fails : Bool
  pub second_fails : Bool

module _ {E : Type 0} where
  -- New
  unfoldable pub new_writer : BatchWriter E
  new_writer = record {
    queue = [];
    batch = [];
    depth_added = 0;
    depth_removed = 0;
    parse_errors = 0;
    db_write_errors = 0;
    dropped_events = 0;
    stopped = false;
    phase = not_started;
    admitted = 0;
    uncounted = 0;
    sent = [];
    flushed = [];
    lost = [];
  }

  unfoldable pub start : BatchWriter E → BatchWriter E
  start w = elim w.phase [
    | not_started ↦ record w { phase = looping }
    | looping ↦ w
    | draining ↦ w
    | finished ↦ w
  ]

  -- Running
  unfoldable pub is_running : BatchWriter E → Bool
  is_running w = elim w.phase [
    | not_started ↦ false
    | looping ↦ not w.stopped
    | draining ↦ not w.stopped
    | finished ↦ not w.stopped
  ]

  -- Stop, up to the wait for the loop.
  unfoldable pub stop : BatchWriter E → BatchWriter E
  stop w = if w.stopped then w else record w { stopped = true }

  -- Enqueue's test of `stopped`.
  unfoldable pub enqueue_test : BatchWriter E → BatchWriter E
  enqueue_test w =
      if w.stopped
      then record w { dropped_events = w.dropped_events + 1 }
      else record w { admitted = w.admitted + 1 }

  -- Enqueue's select, in a call that passed the test.
  unfoldable pub enqueue_send : ℕ → E → BatchWriter E → BatchWriter E
  enqueue_send capacity ev w =
      if ltb (length w.queue) capacity
      then record w {
        queue = w.queue ++ ev ∷ [];
        admitted = w.admitted - 1;
        uncounted = w.uncounted + 1;
        sent = w.sent ++ ev ∷ [];
      }
      else record w { admitted = w.admitted - 1; dropped_events = w.dropped_events + 1 }

  -- Enqueue's count, in a call that sent.
  unfoldable pub enqueue_count : BatchWriter E → BatchWriter E
  enqueue_count w = record w { uncounted = w.uncounted - 1; depth_added = w.depth_added + 1 }

  -- flush, where the batch has events.
  unfoldable pub flush_batch : Attempts → BatchWriter E → BatchWriter E
  flush_batch t w =
      let gave_up = t.first_fails && t.second_fails in
      record w {
        batch = [];
        db_write_errors = if gave_up then w.db_write_errors + 1 else w.db_write_errors;
        depth_removed = w.depth_removed + length w.batch;
        flushed = w.flushed ++ w.batch;
        lost = if gave_up then w.lost ++ w.batch else w.lost;
      }

  unfoldable pub flush : Attempts → BatchWriter E → BatchWriter E
  unfolding flush_batch
  flush t w = if leb (length w.batch) 0 then w else flush_batch t w

  -- What follows `ev := <-bw.queue`; `rest` is left in the queue.
  unfoldable pub receive : ℕ → Attempts → E → List E → BatchWriter E → BatchWriter E
  unfolding flush
  receive batch_size t ev rest w =
      let taken = record w { queue = rest; batch = w.batch ++ ev ∷ [] } in
      if leb batch_size (length taken.batch) then flush t taken else taken

  -- The default case of the draining loop.
  unfoldable pub finish : Attempts → BatchWriter E → BatchWriter E
  unfolding flush
  finish t w = record (flush t w) { phase = finished }

  -- IncrParseErrors
  unfoldable pub incr_parse_errors : BatchWriter E → BatchWriter E
  incr_parse_errors w = record w { parse_errors = w.parse_errors + 1 }

  -- The loop in the case of stopCh, where nothing else is sent meanwhile; `ts` are the attempts of
  -- the rounds.
  unfoldable pub drain_queue : ℕ → (ℕ → Attempts) → List E → BatchWriter E → BatchWriter E
  unfolding receive finish
  drain_queue batch_size ts [] w = finish (ts 0) w
  drain_queue batch_size ts (ev ∷ rest) w =
      drain_queue batch_size (λ n. ts (suc n)) rest (receive batch_size (ts 0) ev rest w)
