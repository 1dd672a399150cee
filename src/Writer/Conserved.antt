-- ===== src/Writer/Conserved.antt =====
-- BatchWriter: what is sent is flushed once and in order, and the counters agree with the queue.
use metering_proxy.Common.{
  ℕ, ◌+◌, ◌≤◌, ◌<◌, ◌≡◌, refl, sym, ap, ◌∙◌, Bool, true, false, List, [], ◌∷◌, ◌++◌, length, ltb,
  leb, if◌then◌else◌, arith, Bool-cases, inl, inr, append_assoc, length-append,
}
use metering_proxy.Writer.{
  Phase, not_started, looping, draining, finished, BatchWriter, Attempts, new_writer, start, stop,
  enqueue_test, enqueue_send, enqueue_count, flush, flush_batch, receive, finish, incr_parse_errors,
}
use metering_proxy.Writer.Steps.{
  Step, does_start, does_stop, tests, sends, counts, errs, receives, ticks, drains, drains_one,
  finishes, Reachable, at_first, after,
}

module _ {E : Type 0} (capacity batch_size : ℕ) where
  -- The events sent are those flushed, then those in the batch, then those in the queue, in order;
  -- the depth counts the batch and the queue, up to the calls that have not counted yet; the queue
  -- is within its capacity and the batch below its size; nothing is lost without a write error.
  pub record IsConserved (w : BatchWriter E) : Type 0 where
    pub order : w.sent ≡ w.flushed ++ (w.batch ++ w.queue)
    pub depth : w.depth_added + w.uncounted ≡ w.depth_removed + (length w.batch + length w.queue)
    pub room : length w.queue ≤ capacity
    pub small : length w.batch < batch_size
    pub losses : w.db_write_errors ≡ 0 → w.lost ≡ []

  -- As IsConserved, where the batch may have reached its size.
  record IsTaken (w : BatchWriter E) : Type 0 where
    pub order : w.sent ≡ w.flushed ++ (w.batch ++ w.queue)
    pub depth : w.depth_added + w.uncounted ≡ w.depth_removed + (length w.batch + length w.queue)
    pub room : length w.queue ≤ capacity
    pub losses : w.db_write_errors ≡ 0 → w.lost ≡ []

  flush_batch-IsConserved :
      (t : Attempts) (w : BatchWriter E)
      → 0 < batch_size
      → IsTaken w
      → IsConserved (flush_batch t w)
  unfolding flush_batch
  flush_batch-IsConserved t w pos h = record {
    order = h.order ∙ sym (append_assoc w.flushed w.batch w.queue);
    depth = omega (arith, h.depth);
    room = h.room;
    small = pos;
    losses = λ none. ground (arith, h.losses);
  }

  flush-IsConserved :
      (t : Attempts) (w : BatchWriter E) → 0 < batch_size → IsTaken w → IsConserved (flush t w)
  unfolding flush
  flush-IsConserved t w pos h = elim (Bool-cases (leb (length w.batch) 0)) [
    | inl e ↦ rw e (record {
      order = h.order;
      depth = h.depth;
      room = h.room;
      small = ground arith;
      losses = h.losses;
    })
    | inr e ↦ rw e (flush_batch-IsConserved t w pos h)
  ]

  loosen : (w : BatchWriter E) → IsConserved w → IsTaken w
  loosen w h = record { order = h.order; depth = h.depth; room = h.room; losses = h.losses }

  take-IsTaken :
      (w : BatchWriter E) (ev : E) (rest : List E)
      → w.queue ≡ ev ∷ rest
      → IsConserved w
      → IsTaken (record w { queue = rest; batch = w.batch ++ ev ∷ [] })
  take-IsTaken w ev rest q h = record {
    order =
        h.order
        ∙ ap (λ r. w.flushed ++ r)
            (ap (λ r. w.batch ++ r) q ∙ sym (append_assoc w.batch (ev ∷ []) rest));
    depth = rw (length-append w.batch (ev ∷ [])) (omega (arith, h.depth, ap length q));
    room = omega (arith, h.room, ap length q);
    losses = h.losses;
  }

  receive-IsConserved :
      (t : Attempts) (w : BatchWriter E) (ev : E) (rest : List E)
      → 0 < batch_size
      → w.queue ≡ ev ∷ rest
      → IsConserved w
      → IsConserved (receive batch_size t ev rest w)
  unfolding receive
  receive-IsConserved t w ev rest pos q h =
      let taken = take-IsTaken w ev rest q h in
      elim (Bool-cases (leb batch_size (length (w.batch ++ ev ∷ [])))) [
        | inl e ↦ rw e (flush-IsConserved t _ pos taken)
        | inr e ↦ rw e (record {
          order = taken.order;
          depth = taken.depth;
          room = taken.room;
          small = ground arith;
          losses = taken.losses;
        })
      ]

  enqueue_send-IsConserved :
      (ev : E) (w : BatchWriter E) → IsConserved w → IsConserved (enqueue_send capacity ev w)
  unfolding enqueue_send
  enqueue_send-IsConserved ev w h = elim (Bool-cases (ltb (length w.queue) capacity)) [
    | inl e ↦ rw e (record {
      order =
          ap (λ r. r ++ ev ∷ []) h.order
          ∙ (append_assoc w.flushed (w.batch ++ w.queue) (ev ∷ [])
              ∙ ap (λ r. w.flushed ++ r) (append_assoc w.batch w.queue (ev ∷ [])));
      depth = rw (length-append w.queue (ev ∷ [])) (omega (arith, h.depth));
      room = rw (length-append w.queue (ev ∷ [])) (ground arith);
      small = h.small;
      losses = h.losses;
    })
    | inr e ↦ rw e (record {
      order = h.order;
      depth = h.depth;
      room = h.room;
      small = h.small;
      losses = h.losses;
    })
  ]

  with_phase :
      (w : BatchWriter E) (p : Phase) → IsConserved w → IsConserved (record w { phase = p })
  with_phase w p h = record {
    order = h.order;
    depth = h.depth;
    room = h.room;
    small = h.small;
    losses = h.losses;
  }

  start-IsConserved : (w : BatchWriter E) → IsConserved w → IsConserved (start w)
  unfolding start
  start-IsConserved w h = by_phase w.phase
    where
      by_phase :
          (p : Phase)
          → IsConserved (elim p [
            | not_started ↦ record w { phase = looping }
            | looping ↦ w
            | draining ↦ w
            | finished ↦ w
          ])
      by_phase not_started = with_phase w looping h
      by_phase looping = h
      by_phase draining = h
      by_phase finished = h

  stop-IsConserved : (w : BatchWriter E) → IsConserved w → IsConserved (stop w)
  unfolding stop
  stop-IsConserved w h = by_stopped w.stopped
    where
      by_stopped : (b : Bool) → IsConserved (if b then w else record w { stopped = true })
      by_stopped true = h
      by_stopped false = record {
        order = h.order;
        depth = h.depth;
        room = h.room;
        small = h.small;
        losses = h.losses;
      }

  enqueue_test-IsConserved : (w : BatchWriter E) → IsConserved w → IsConserved (enqueue_test w)
  unfolding enqueue_test
  enqueue_test-IsConserved w h = elim (Bool-cases w.stopped) [
    | inl e ↦ rw e (record {
      order = h.order;
      depth = h.depth;
      room = h.room;
      small = h.small;
      losses = h.losses;
    })
    | inr e ↦ rw e (record {
      order = h.order;
      depth = h.depth;
      room = h.room;
      small = h.small;
      losses = h.losses;
    })
  ]

  enqueue_count-IsConserved :
      (w : BatchWriter E) → 0 < w.uncounted → IsConserved w → IsConserved (enqueue_count w)
  unfolding enqueue_count
  enqueue_count-IsConserved w ok h = record {
    order = h.order;
    depth = omega (arith, h.depth);
    room = h.room;
    small = h.small;
    losses = h.losses;
  }

  Step-IsConserved :
      (w v : BatchWriter E)
      → 0 < batch_size
      → IsConserved w
      → Step capacity batch_size w v
      → IsConserved v
  unfolding finish
  Step-IsConserved w _ pos h does_start = start-IsConserved w h
  Step-IsConserved w _ pos h does_stop = stop-IsConserved w h
  Step-IsConserved w _ pos h tests = enqueue_test-IsConserved w h
  Step-IsConserved w _ pos h (sends ev ok) = enqueue_send-IsConserved ev w h
  Step-IsConserved w _ pos h (counts ok) = enqueue_count-IsConserved w ok h
  Step-IsConserved w _ pos h errs =
      unfold incr_parse_errors in
      record { order = h.order; depth = h.depth; room = h.room; small = h.small; losses = h.losses }
  Step-IsConserved w _ pos h (receives t ev rest p q) = receive-IsConserved t w ev rest pos q h
  Step-IsConserved w _ pos h (ticks t p) = flush-IsConserved t w pos (loosen w h)
  Step-IsConserved w _ pos h (drains p s) = with_phase w draining h
  Step-IsConserved w _ pos h (drains_one t ev rest p q) = receive-IsConserved t w ev rest pos q h
  Step-IsConserved w _ pos h (finishes t p q) =
      with_phase (flush t w) finished (flush-IsConserved t w pos (loosen w h))

  -- Whatever the handlers and the loop have done, in any order, for a batch size of at least 1: the
  -- events that Enqueue sent are those flushed, those in the batch and those in the queue, each once
  -- and in the order they were sent; queueDepth counts the batch and the queue, up to the calls of
  -- Enqueue that have not counted yet; the queue is within its capacity and the batch below its
  -- size; and without a write error nothing is lost.
  pub Reachable-IsConserved :
      (w : BatchWriter E) → 0 < batch_size → Reachable capacity batch_size w → IsConserved w
  unfolding new_writer
  Reachable-IsConserved _ pos at_first = record {
    order = refl;
    depth = refl;
    room = omega arith;
    small = pos;
    losses = λ _. refl;
  }
  Reachable-IsConserved _ pos (after {w = w} r s) =
      Step-IsConserved w _ pos (Reachable-IsConserved w pos r) s
