-- ===== src/Credential.antt =====
-- internal/credential/poller.go: the throttle of manual refreshes: Refresh, doRefresh and the loop that
-- receives the signals. A step is what one goroutine does between two points where another can come in;
-- Refresh takes two, what it does under the lock and the send. Time is nanoseconds of one clock that does
-- not run backwards, and Refresh reads it once; the zero time of lastRefresh is `none`, from which any interval has passed.
pub mod Serial
use metering_proxy.Common.{
  ℕ, suc, ◌+◌, ◌-◌, ◌<◌, ◌≡◌, Bool, true, false, ◌&&◌, Option, none, some, List, [], ◌∷◌, ltb,
  if◌then◌else◌,
}

-- The fields of Poller that are used, the calls of Refresh that have unlocked and not yet sent, what the
-- buffer of refreshCh holds, and where the loop is. The last two fields are kept for the proofs: when
-- the refreshes were let through, and the signals that found the buffer full.
pub record Poller : Type 0 where
  pub refresh_in_flight : Bool
  pub last_refresh : Option ℕ
  pub sending : ℕ
  pub signals : ℕ
  pub running : Bool
  pub polling : Bool
  pub clock : ℕ
  pub starts : List ℕ
  pub dropped : ℕ

abbrev pub new_poller : Poller
new_poller = record {
  refresh_in_flight = false;
  last_refresh = none;
  sending = 0;
  signals = 0;
  running = true;
  polling = false;
  clock = 0;
  starts = [];
  dropped = 0;
}

-- min > 0 && time.Since(p.lastRefresh) < min
unfoldable pub too_soon : ℕ → Option ℕ → ℕ → Bool
too_soon interval none now = false
too_soon interval (some last) now = ltb 0 interval && ltb (now - last) interval

let_through : Poller → Poller
let_through p = record p {
  refresh_in_flight = true;
  last_refresh = some p.clock;
  sending = suc p.sending;
  starts = p.clock ∷ p.starts;
}

-- Refresh, up to the last Unlock.
unfoldable pub refresh : ℕ → Poller → Poller
unfolding too_soon let_through
refresh interval p =
    if p.refresh_in_flight
    then p
    else if too_soon interval p.last_refresh p.clock
    then p
    else let_through p

-- The select of Refresh: the buffer has room for one signal.
unfoldable pub send_signal : Poller → Poller
send_signal p =
    if ltb p.signals 1
    then record p { sending = p.sending - 1; signals = suc p.signals }
    else record p { sending = p.sending - 1; dropped = suc p.dropped }

-- The case of refreshCh in the loop, which goes on to doRefresh.
unfoldable pub receive_signal : Poller → Poller
receive_signal p = record p { signals = p.signals - 1; polling = true }

-- doRefresh, after poll.
unfoldable pub finish_refresh : Poller → Poller
finish_refresh p = record p { refresh_in_flight = false; polling = false }

-- What the goroutines can do, in any order.
pub data RefreshStep (interval : ℕ) (p : Poller) : Poller → Type 0 where
  time_passes : (n : ℕ) → RefreshStep interval p (record p { clock = p.clock + n })
  refreshes : RefreshStep interval p (refresh interval p)
  sends : 0 < p.sending → RefreshStep interval p (send_signal p)
  receives :
      p.running ≡ true
      → p.polling ≡ false
      → 0 < p.signals
      → RefreshStep interval p (receive_signal p)
  finishes : p.polling ≡ true → RefreshStep interval p (finish_refresh p)
  stops : p.polling ≡ false → RefreshStep interval p (record p { running = false })

pub data Reachable (interval : ℕ) : Poller → Type 0 where
  at_first : Reachable interval new_poller
  after : {p q : Poller} → Reachable interval p → RefreshStep interval p q → Reachable interval q
