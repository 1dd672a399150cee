-- ===== src/Writer/Delivery.antt =====
-- BatchWriter: when the loop ends, all that was sent before has been flushed.
use metering_proxy.Common.{
  ℕ, suc, ◌<◌, ◌≡◌, refl, sym, ap, ◌∙◌, true, List, [], ◌∷◌, ◌++◌, length, leb, arith, Bool-cases,
  inl, inr, append-nil,
}
use metering_proxy.Writer.{
  draining, finished, BatchWriter, Attempts, flush, flush_batch, receive, finish, drain_queue,
}
use metering_proxy.Writer.Steps.{drains_one, finishes, Reachable, after}
use metering_proxy.Writer.Conserved.{Reachable-IsConserved}

module _ {E : Type 0} where
  length-empty : (b : List E) → leb (length b) 0 ≡ true → b ≡ []
  length-empty [] h = refl
  length-empty (x ∷ b) h = absurd (ground arith)

  flush-empties : (t : Attempts) (w : BatchWriter E) → (flush t w).batch ≡ []
  unfolding flush flush_batch
  flush-empties t w = elim (Bool-cases (leb (length w.batch) 0)) [
    | inl e ↦ rw e (length-empty w.batch e)
    | inr e ↦ rw e refl
  ]

  flush-rest :
      (t : Attempts) (w : BatchWriter E)
      → ((flush t w).queue ≡ w.queue) × ((flush t w).sent ≡ w.sent) × ((flush t w).phase ≡ w.phase)
  unfolding flush flush_batch
  flush-rest t w = elim (Bool-cases (leb (length w.batch) 0)) [
    | inl e ↦ rw e (refl, refl, refl)
    | inr e ↦ rw e (refl, refl, refl)
  ]

  receive-rest :
      (batch_size : ℕ) (t : Attempts) (ev : E) (rest : List E) (w : BatchWriter E)
      → ((receive batch_size t ev rest w).queue ≡ rest)
        × ((receive batch_size t ev rest w).sent ≡ w.sent)
        × ((receive batch_size t ev rest w).phase ≡ w.phase)
  unfolding receive
  receive-rest batch_size t ev rest w =
      elim (Bool-cases (leb batch_size (length (w.batch ++ ev ∷ [])))) [
        | inl e ↦ rw e (flush-rest t (record w { queue = rest; batch = w.batch ++ ev ∷ [] }))
        | inr e ↦ rw e (refl, refl, refl)
      ]

  module _ (capacity batch_size : ℕ) (pos : 0 < batch_size) where
    finish-flushed :
        (t : Attempts) (w : BatchWriter E)
        → Reachable capacity batch_size w
        → w.phase ≡ draining
        → w.queue ≡ []
        → (finish t w).flushed ≡ (finish t w).sent
    unfolding finish
    finish-flushed t w r p q =
        let v = finish t w in
        let h = Reachable-IsConserved capacity batch_size v pos (after r (finishes t p q)) in
        sym (
          h.order
          ∙ (ap (λ b. v.flushed ++ (b ++ v.queue)) (flush-empties t w)
              ∙ (ap (λ s. v.flushed ++ s) ((flush-rest t w).0 ∙ q) ∙ append-nil v.flushed)))

    -- The loop stops: from any state that a writer can reach in which the loop drains, and where
    -- nothing more is sent, as many rounds as the queue is long and one more end it, with the queue
    -- and the batch empty and all that Enqueue has sent flushed, in order, whatever the attempts to
    -- insert give. The batch size is at least 1.
    pub drain_queue-flushed :
        (ts : ℕ → Attempts) (q : List E) (w : BatchWriter E)
        → Reachable capacity batch_size w
        → w.phase ≡ draining
        → w.queue ≡ q
        → ((drain_queue batch_size ts q w).phase ≡ finished)
          × ((drain_queue batch_size ts q w).queue ≡ [])
          × ((drain_queue batch_size ts q w).batch ≡ [])
          × ((drain_queue batch_size ts q w).sent ≡ w.sent)
          × ((drain_queue batch_size ts q w).flushed ≡ w.sent)
    unfolding drain_queue
    drain_queue-flushed ts [] w r p q = (
      unfold finish in refl,
      unfold finish in ((flush-rest (ts 0) w).0 ∙ q),
      unfold finish in flush-empties (ts 0) w,
      same,
      finish-flushed (ts 0) w r p q ∙ same,
    )
      where
        same : (finish (ts 0) w).sent ≡ w.sent
        same = unfold finish in (flush-rest (ts 0) w).1
    drain_queue-flushed ts (ev ∷ rest) w r p q =
        let v = receive batch_size (ts 0) ev rest w in
        let k = receive-rest batch_size (ts 0) ev rest w in
        let (a, b, c, d, e) =
          drain_queue-flushed (λ n. ts (suc n)) rest v (after r (drains_one (ts 0) ev rest p q))
            (k.2 ∙ p) k.0 in
        (a, b, c, d ∙ k.1, e ∙ k.1)
