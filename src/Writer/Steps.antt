-- ===== src/Writer/Steps.antt =====
-- BatchWriter as a state machine: what its goroutines can do, in any order.
use metering_proxy.Common.{ℕ, ◌<◌, ◌≡◌, true, List, [], ◌∷◌}
use metering_proxy.Writer.{
  looping, draining, BatchWriter, Attempts, new_writer, start, stop, enqueue_test, enqueue_send,
  enqueue_count, flush, receive, finish, incr_parse_errors,
}

module _ {E : Type 0} (capacity batch_size : ℕ) where
  pub data Step (w : BatchWriter E) : BatchWriter E → Type 0 where
    does_start : Step w (start w)
    does_stop : Step w (stop w)
    tests : Step w (enqueue_test w)
    sends : (ev : E) → 0 < w.admitted → Step w (enqueue_send capacity ev w)
    counts : 0 < w.uncounted → Step w (enqueue_count w)
    errs : Step w (incr_parse_errors w)
    receives :
        (t : Attempts) (ev : E) (rest : List E)
        → w.phase ≡ looping
        → w.queue ≡ ev ∷ rest
        → Step w (receive batch_size t ev rest w)
    ticks : (t : Attempts) → w.phase ≡ looping → Step w (flush t w)
    -- The case of stopCh, which Stop closes.
    drains : w.phase ≡ looping → w.stopped ≡ true → Step w (record w { phase = draining })
    drains_one :
        (t : Attempts) (ev : E) (rest : List E)
        → w.phase ≡ draining
        → w.queue ≡ ev ∷ rest
        → Step w (receive batch_size t ev rest w)
    finishes : (t : Attempts) → w.phase ≡ draining → w.queue ≡ [] → Step w (finish t w)

  -- What can come of a new writer.
  pub data Reachable : BatchWriter E → Type 0 where
    at_first : Reachable new_writer
    after : {w v : BatchWriter E} → Reachable w → Step w v → Reachable v
