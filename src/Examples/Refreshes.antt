-- ===== src/Examples/Refreshes.antt =====
-- The throttle of refreshes in a run: a refresh is let through, sent, polled and finished.
use metering_proxy.Common.{refl, true, some, [], ◌∷◌, arith}
use metering_proxy.Credential.{
  Poller, refresh, send_signal, receive_signal, finish_refresh, refreshes, sends, receives,
  finishes, Reachable, at_first, after,
}
use metering_proxy.Credential.Serial.{IsSerial, Reachable-IsSerial}

abbrev polled : Poller
polled = record {
  refresh_in_flight = true;
  last_refresh = some 0;
  sending = 0;
  signals = 0;
  running = true;
  polling = true;
  clock = 0;
  starts = 0 ∷ [];
  dropped = 0;
}

polled-Reachable : Reachable 30 polled
unfolding refresh send_signal receive_signal
polled-Reachable =
    after (after (after at_first refreshes) (sends (omega arith)))
      (receives refl refl (omega arith))

finished-Reachable : Reachable 30 (refresh 30 (finish_refresh polled))
finished-Reachable = after (after polled-Reachable (finishes refl)) refreshes

Reachable-IsSerial_example : IsSerial 30 (refresh 30 (finish_refresh polled))
Reachable-IsSerial_example =
    Reachable-IsSerial 30 (refresh 30 (finish_refresh polled)) finished-Reachable
