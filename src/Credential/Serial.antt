-- ===== src/Credential/Serial.antt =====
-- The throttle of refreshes keeps them apart.
use metering_proxy.Common.{
  ℕ, ◌+◌, ◌<◌, ◌≤◌, ◌≡◌, refl, sym, ◌∙◌, lt→ltb, Bool, true, false, Option, none, some, List, [],
  ◌∷◌, ltb, if◌then◌else◌, arith,
}
use metering_proxy.Credential.{
  Poller, too_soon, let_through, refresh, send_signal, receive_signal, finish_refresh, RefreshStep,
  time_passes, refreshes, sends, receives, finishes, stops, Reachable, at_first, after,
}

abbrev pub one_if : Bool → ℕ
one_if true = 1
one_if false = 0

-- Each is the interval or more after the one before it.
unfoldable pub Spaced : ℕ → List ℕ → Type 0
Spaced interval [] = Unit
Spaced interval (t ∷ []) = Unit
Spaced interval (t ∷ u ∷ ts) = (u + interval ≤ t) × Spaced interval (u ∷ ts)

abbrev pub latest : List ℕ → Option ℕ
latest [] = none
latest (t ∷ ts) = some t

abbrev pub NotAfter : ℕ → Option ℕ → Type 0
NotAfter now none = Unit
NotAfter now (some t) = t ≤ now

-- One refresh at most is on its way, and no signal has been dropped.
pub record IsSerial (interval : ℕ) (p : Poller) : Type 0 where
  pub on_its_way : p.sending + p.signals + one_if p.polling ≡ one_if p.refresh_in_flight
  pub none_dropped : p.dropped ≡ 0
  pub last_is : p.last_refresh ≡ latest p.starts
  pub in_past : NotAfter p.clock (latest p.starts)
  pub spaced : Spaced interval p.starts

NotAfter-later : (now n : ℕ) (o : Option ℕ) → NotAfter now o → NotAfter (now + n) o
NotAfter-later now n none h = tt
NotAfter-later now n (some t) h = omega (arith, h)

Spaced-cons :
    (interval now : ℕ) (ts : List ℕ)
    → too_soon interval (latest ts) now ≡ false
    → NotAfter now (latest ts)
    → Spaced interval ts
    → Spaced interval (now ∷ ts)
unfolding too_soon Spaced
Spaced-cons interval now [] h k s = tt
Spaced-cons interval now (t ∷ ts) h k s = (ground arith, s)

let_through-IsSerial :
    (interval : ℕ) (p : Poller)
    → p.refresh_in_flight ≡ false
    → too_soon interval p.last_refresh p.clock ≡ false
    → IsSerial interval p
    → IsSerial interval (let_through p)
unfolding let_through
let_through-IsSerial interval p f e h = record {
  on_its_way = let g : one_if p.refresh_in_flight ≡ 0 = rw f refl in omega (arith, h.on_its_way, g);
  none_dropped = h.none_dropped;
  last_is = refl;
  in_past = omega arith;
  spaced = Spaced-cons interval p.clock p.starts (rw (sym h.last_is) e) h.in_past h.spaced;
}

refresh-IsSerial :
    (interval : ℕ) (p : Poller) → IsSerial interval p → IsSerial interval (refresh interval p)
unfolding refresh
refresh-IsSerial interval p h = in_flight p.refresh_in_flight refl
  where
    soon :
        (b : Bool)
        → too_soon interval p.last_refresh p.clock ≡ b
        → p.refresh_in_flight ≡ false
        → IsSerial interval (if b then p else let_through p)
    soon true e f = h
    soon false e f = let_through-IsSerial interval p f e h

    in_flight :
        (b : Bool)
        → p.refresh_in_flight ≡ b
        → IsSerial interval (
            if b
            then p
            else (if too_soon interval p.last_refresh p.clock then p else let_through p))
    in_flight true f = h
    in_flight false f = soon (too_soon interval p.last_refresh p.clock) refl f

send_signal-IsSerial :
    (interval : ℕ) (p : Poller)
    → 0 < p.sending
    → IsSerial interval p
    → IsSerial interval (send_signal p)
unfolding send_signal
send_signal-IsSerial interval p s h =
    let room : ltb p.signals 1 ≡ true =
      lt→ltb p.signals 1 (alone p.refresh_in_flight h.on_its_way) in
    rw room record {
      on_its_way = omega (arith, h.on_its_way, s) ∙ h.on_its_way;
      none_dropped = h.none_dropped;
      last_is = h.last_is;
      in_past = h.in_past;
      spaced = h.spaced;
    }
  where
    alone : (b : Bool) → p.sending + p.signals + one_if p.polling ≡ one_if b → p.signals < 1
    alone true e = omega (arith, e, s)
    alone false e = omega (arith, e, s)

Step-IsSerial :
    (interval : ℕ) (p q : Poller)
    → RefreshStep interval p q
    → IsSerial interval p
    → IsSerial interval q
unfolding receive_signal finish_refresh
Step-IsSerial interval p q (time_passes n) h = record {
  on_its_way = h.on_its_way;
  none_dropped = h.none_dropped;
  last_is = h.last_is;
  in_past = NotAfter-later p.clock n (latest p.starts) h.in_past;
  spaced = h.spaced;
}
Step-IsSerial interval p q refreshes h = refresh-IsSerial interval p h
Step-IsSerial interval p q (sends s) h = send_signal-IsSerial interval p s h
Step-IsSerial interval p q (receives r f s) h = record {
  on_its_way = let g : one_if p.polling ≡ 0 = rw f refl in omega (arith, s, g) ∙ h.on_its_way;
  none_dropped = h.none_dropped;
  last_is = h.last_is;
  in_past = h.in_past;
  spaced = h.spaced;
}
Step-IsSerial interval p q (finishes f) h = record {
  on_its_way =
      let g : one_if p.polling ≡ 1 = rw f refl in
      done p.refresh_in_flight (omega (arith, h.on_its_way, g));
  none_dropped = h.none_dropped;
  last_is = h.last_is;
  in_past = h.in_past;
  spaced = h.spaced;
}
  where
    done : (b : Bool) → p.sending + p.signals + 1 ≡ one_if b → p.sending + p.signals + 0 ≡ 0
    done true e = omega (arith, e)
    done false e = absurd (omega (arith, e))
Step-IsSerial interval p q (stops f) h = record {
  on_its_way = h.on_its_way;
  none_dropped = h.none_dropped;
  last_is = h.last_is;
  in_past = h.in_past;
  spaced = h.spaced;
}

-- Whatever calls of Refresh, rounds of the loop and time have come about, in any order: the poller has a
-- refresh in flight just where one is being sent, is in the channel or is polled, and there is never a
-- second one; no signal has found the channel full; and the refreshes that were let through are at
-- least the interval apart.
pub Reachable-IsSerial : (interval : ℕ) (p : Poller) → Reachable interval p → IsSerial interval p
unfolding Spaced
Reachable-IsSerial interval p at_first = record {
  on_its_way = refl;
  none_dropped = refl;
  last_is = refl;
  in_past = tt;
  spaced = tt;
}
Reachable-IsSerial interval p (after {p = r} {q = s} h s_) =
    Step-IsSerial interval r p s_ (Reachable-IsSerial interval r h)
