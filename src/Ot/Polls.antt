-- ===== src/Ot/Polls.antt =====
-- Every call of the event loop leaves the transaction sound.
use casquinha.Ot.Sends.{send-IsSound}
use casquinha.Ot.Sound.{is_closing, is_opening, count-append, call-IsFair}
use casquinha.Ot.Loop.{poll, is_receiving, ticks_since, is_connecting, check_time, slice}
use casquinha.Ot.Address.{resolve_host}
use casquinha.Ot.Slices.{not_failed, recv-IsSound, alive-IsSound, moved-IsSound}
use casquinha.Ot.Ends.{is_failed, fail-IsSound, IsAlive, is_live, IsSound}
use casquinha.Ot.Connect.{
  ensure_up, pump_connect, dial, on_event, open_and_connect, issue_connect, connect_endpoint,
}
use casquinha.Transport.{timeout_error, is_running, connect_error}
use casquinha.Prelude.{
  ap, [], ◌∷◌, ltb, not, ◌&&◌, ◌||◌, Option, arith, Bool, ◌≡◌, refl, true, false, if-both, none,
  some, ℕ,
}
use casquinha.Ot.{
  other_event, t_ordrel, st_failed, t_disconnect, st_done, st_receiving, t_connect, watchdog_ticks,
  deadline_ticks, State, open_endpoint, Memory, rcv_disconnect, call, Globals, Event, st_init,
  Provider, ConnectAnswer, OtTransport, st_connecting, st_sending, no_event, connected, in_progress,
  rejected,
}

-- A running transaction with an open endpoint.
IsSound-IsAlive :
    (t : OtTransport) → IsSound t → t.tx.cancelled ≡ false → is_live t.st ≡ true → IsAlive t
IsSound-IsAlive t h c l = record {
  fair = h.fair;
  clean = ground (arith, h.blamed, l);
  fd_open = rw (h.opened, l, c) refl;
  status_running = ground (arith, h.ended, l);
  not_cancelled = c;
  lossless = h.lossless (not_failed t.st l);
}

issue-IsSound :
    (c : ConnectAnswer) (async : Bool) (t : OtTransport)
    → IsAlive t
    → IsSound (issue_connect c async t)
unfolding issue_connect
issue-IsSound connected true t h =
    moved-IsSound st_connecting t h refl refl (λ e. absurd (ground arith))
issue-IsSound connected false t h =
    moved-IsSound st_sending t h refl refl (λ e. absurd (ground arith))
issue-IsSound in_progress async t h =
    moved-IsSound st_connecting t h refl refl (λ e. absurd (ground arith))
issue-IsSound rejected async t h = fail-IsSound t connect_error _ (ground arith) h.fair

-- How far the connect has come is no matter to what holds of a running transaction.
noted-IsAlive :
    (e : Event) (async : Bool) (t : OtTransport)
    → IsAlive t
    → IsAlive (record t { conn_event = e; async = async })
noted-IsAlive e async t h = record {
  fair = record {
    balanced = h.fair.balanced;
    wired = h.fair.wired;
    within = h.fair.within;
    prepared = h.fair.prepared;
    kept = h.fair.kept;
  };
  clean = h.clean;
  fd_open = h.fd_open;
  status_running = h.status_running;
  not_cancelled = h.not_cancelled;
  lossless = h.lossless;
}

dial-IsSound :
    (p : Provider) (upp : Bool) (t : OtTransport) (ip : Option ℕ)
    → IsAlive t
    → IsSound (dial p upp t ip)
unfolding dial
dial-IsSound p upp t none h = fail-IsSound t connect_error _ (ground arith) h.fair
dial-IsSound p upp t (some ip) h = issue-IsSound p.connects _ _ (noted-IsAlive no_event _ t h)

endpoint-IsSound :
    (p : Provider) (upp : Bool) (t : OtTransport) → IsAlive t → IsSound (connect_endpoint p upp t)
unfolding connect_endpoint
endpoint-IsSound p upp t h =
    if-both IsSound (not p.binds) _ _ (λ _. fail-IsSound t connect_error _ (ground arith) h.fair)
      (λ _. dial-IsSound p upp t (resolve_host p.services t.tx.host) h)

-- The endpoint has been opened.
opened-IsAlive :
    (t : OtTransport)
    → IsSound t
    → t.st ≡ st_init
    → t.tx.cancelled ≡ false
    → IsAlive (call open_endpoint (record t { tx = record t.tx { fd = true } }))
opened-IsAlive t h s c = record {
  fair = record {
    balanced = ground (
      arith,
      h.fair.balanced,
      shut,
      count-append is_opening t.ledger.calls (open_endpoint ∷ []),
      count-append is_closing t.ledger.calls (open_endpoint ∷ []),
    );
    wired = h.fair.wired;
    within = h.fair.within;
    prepared = h.fair.prepared;
    kept = h.fair.kept;
  };
  clean = ground (arith, h.blamed, s);
  fd_open = refl;
  status_running = rw s at h.ended;
  not_cancelled = c;
  lossless = h.lossless (ap is_failed s);
}
  where
    shut : t.tx.fd ≡ false
    shut = ground (arith, h.opened, s)

open-IsSound :
    (p : Provider) (g : Globals) (t : OtTransport)
    → IsSound t
    → t.st ≡ st_init
    → t.tx.cancelled ≡ false
    → IsSound (open_and_connect p g t).0
unfolding open_and_connect
open-IsSound p g t h s c =
    let (up, g') = ensure_up p g in
    if-both (λ (o : OtTransport × Globals). IsSound o.0) (not up) _ _
      (λ _. fail-IsSound t connect_error _ (ground arith) h.fair)
      (λ _.
        if-both (λ (o : OtTransport × Globals). IsSound o.0) (not p.opens) _ _
          (λ _. fail-IsSound _ connect_error _ (ground arith) (record {
            balanced = ground (arith, h.fair.balanced, h.opened, s);
            wired = h.fair.wired;
            within = h.fair.within;
            prepared = h.fair.prepared;
            kept = h.fair.kept;
          }))
          (λ _. endpoint-IsSound p g'.conn_upp _ (opened-IsAlive t h s c)))

waiting-IsSound : (t : OtTransport) → IsAlive t → t.st ≡ st_connecting → IsSound t
waiting-IsSound t h s = alive-IsSound t h (rw s refl) (rw s refl) (λ a. absurd (ground (arith, s)))

event-IsSound :
    (p : Provider) (e : Event) (t : OtTransport)
    → IsAlive t
    → t.st ≡ st_connecting
    → IsSound (on_event p e t)
unfolding on_event
event-IsSound p t_connect t h s =
    if-both IsSound p.accepts _ _
      (λ _.
        moved-IsSound st_sending _ (noted-IsAlive t.conn_event false t h) refl refl
          (λ a. absurd (ground arith)))
      (λ _. fail-IsSound t connect_error _ (ground arith) h.fair)
event-IsSound p t_disconnect t h s =
    fail-IsSound _ connect_error _ (ground arith) (call-IsFair t rcv_disconnect refl refl h.fair)
event-IsSound p no_event t h s = waiting-IsSound t h s
event-IsSound p t_ordrel t h s = waiting-IsSound t h s
event-IsSound p other_event t h s = waiting-IsSound t h s

pub slice-IsSound :
    (m : Memory) (p : Provider) (g : Globals) (t : OtTransport) (s : State)
    → t.st ≡ s
    → IsSound t
    → t.tx.cancelled ≡ false
    → IsSound (slice m p g t s).0
unfolding slice pump_connect
slice-IsSound m p g t st_init s h c = open-IsSound p g t h s c
slice-IsSound m p g t st_connecting s h c =
    event-IsSound p _ t (IsSound-IsAlive t h c (rw s refl)) s
slice-IsSound m p g t st_sending s h c = send-IsSound m p t (IsSound-IsAlive t h c (rw s refl)) s
slice-IsSound m p g t st_receiving s h c =
    recv-IsSound p.reads m t (IsSound-IsAlive t h c (rw s refl)) s (h.sent (rw s refl))
slice-IsSound m p g t st_done s h c = h
slice-IsSound m p g t st_failed s h c = h

check_time-IsSound : (now : ℕ) (t : OtTransport) → IsSound t → IsSound (check_time now t)
unfolding check_time
check_time-IsSound now t h =
    if-both IsSound (not (is_running t.tx.status)) _ _ (λ _. h)
      (λ _.
        if-both IsSound (is_connecting t.st && ltb deadline_ticks (ticks_since now t.connect_tick))
          _ _ (λ _. fail-IsSound t timeout_error _ (ground arith) h.fair)
          (λ _.
            if-both IsSound
              (not (t.tx.streaming && is_receiving t.st)
                && ltb watchdog_ticks (ticks_since now t.start_tick))
              _ _ (λ _. fail-IsSound t timeout_error _ (ground arith) h.fair) (λ _. h)))

pub poll-IsSound :
    (m : Memory) (p : Provider) (g : Globals) (now : ℕ) (t : OtTransport)
    → IsSound t
    → IsSound (poll m p g now t).0
unfolding poll
poll-IsSound m p g now t h =
    if-both (λ (o : OtTransport × Globals × Memory). IsSound o.0)
      (t.tx.cancelled || not (is_running t.tx.status)) _ _ (λ _. h)
      (λ e.
        check_time-IsSound now _ (slice-IsSound m p g t t.st refl h (or_false t.tx.cancelled _ e)))
  where
    or_false : (a b : Bool) → (a || b) ≡ false → a ≡ false
    or_false true b e = absurd (ground arith)
    or_false false b e = refl
