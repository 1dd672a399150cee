-- ===== src/UsageQueue/Batch/Replies.antt =====
-- pollBatch on the replies that a queue of payloads gives.
use metering_proxy.Common.{
  ℕ, ◌≡◌, Bool, true, List, [], ◌∷◌, ◌++◌, Bytes, codes, length, ltb, if◌then◌else◌,
}
use metering_proxy.UsageQueue.Resp.{write_bulks}
use metering_proxy.UsageQueue.Batch.{Reader, Store, Polled, after_payload}

-- The reply of an empty queue.
abbrev pub nil_reply : Bytes
nil_reply = codes "$-1\r\n"

-- What a queue with the payloads `ps` answers to a batch, in front of what comes later.
unfoldable pub replies_of : List Bytes → ℕ → Bytes → Bytes
unfolding write_bulks
replies_of ps batch later =
    write_bulks ps ++ ((if ltb (length ps) batch then nil_reply else []) ++ later)

module _ {F : Type 0} (r : Reader F) (store : Store) (merge : Bool) (max_slice : ℕ)
    (writes : ℕ → Bool) (all_written : (k : ℕ) → writes k ≡ true) where
  -- The payloads are processed one after the other, and each is counted.
  pub processed_all : List Bytes → Polled → Polled
  processed_all [] p = p
  processed_all (b ∷ bs) p = after_payload r store merge b (processed_all bs p)
