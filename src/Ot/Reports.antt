-- ===== src/Ot/Reports.antt =====
-- What one poll does to the state, and what a failed poll reports.
use casquinha.Ot.Connect.{pump_connect}
use casquinha.Ot.Outcomes.{
  broke, fail_told, message_of, fails, sends, reports, gives_up, IsTold, wait, lands, finishes,
  Next, moves, opens, setup, IsOutcome, Setup,
}
use casquinha.Ot.Transfer.{delivered, dropped, recv_look, append, pump_recv}
use casquinha.Ot.Loop.{is_receiving, ticks_since, is_connecting, poll, check_time, slice}
use casquinha.Transport.{failed, done, is_running, running, stream_error, timeout_error}
use casquinha.Transport.Buffer.{append-cases}
use casquinha.Prelude.{
  ap, ltb, sym, ◌||◌, ◌&&◌, not, ◌∙◌, subst, inr, codes, inl, ◌⊎◌, if◌then◌else◌, arith, Bool,
  Bytes, ◌≢◌, List, ◌≡◌, refl, true, false, [], none, some, ◌∷◌, ℕ, if-both,
}
use casquinha.Ot.{
  watchdog_ticks, deadline_ticks, Status, fail, rcv_disconnect, rcv_orderly, snd_orderly, call,
  Event, TxError, Rcv, Memory, OtTransport, State, Globals, Provider, got, look, lost, no_data,
  t_connect, t_disconnect, t_ordrel, other_event, no_event, st_init, st_connecting, st_sending,
  st_receiving, st_done, st_failed,
}

-- Nothing has come, or the mark is passed.
stays : (s : State) (t : OtTransport) → t.st ≡ s → s ≢ st_failed → IsOutcome s (setup t) t
stays s t e ok = moves s s t e (wait s) ok

looks :
    (e : Event) (t : OtTransport)
    → t.st ≡ st_receiving
    → IsOutcome st_receiving (setup t) (recv_look e t)
unfolding recv_look
looks t_ordrel t s = finishes (call snd_orderly (call rcv_orderly t))
looks t_disconnect t s =
    gives_up (λ t'. t') (call rcv_disconnect t) (finishes (call rcv_disconnect t))
looks no_event t s = stays st_receiving t s (ground arith)
looks t_connect t s = stays st_receiving t s (ground arith)
looks other_event t s = stays st_receiving t s (ground arith)

-- The high-water mark is passed, or a read is made.
reads_or_waits :
    (t : OtTransport) (m : Memory) (full : Bool) (o : OtTransport × Memory)
    → t.st ≡ st_receiving
    → IsOutcome st_receiving (setup t) o.0
    → IsOutcome st_receiving (setup t) (if full then (t, m) else o).0
reads_or_waits t m true o s k = stays st_receiving t s (ground arith)
reads_or_waits t m false o s k = k

appends :
    (m : Memory) (t : OtTransport) (buf : Bytes)
    → ((append m t buf).0 ≡ none)
      ⊎ ((t' : OtTransport) × ((append m t buf).0 ≡ some t')
          × (setup t' ≡ setup t)
          × (t'.st ≡ t.st))
unfolding append
appends m t buf = elim (append-cases m t.tx buf) [
  | inl refused ↦ rw (refused, append) (inl refl)
  | inr (c, e, fits) ↦ rw (e, append) (inr (_, refl, refl, refl))
]

receives :
    (rs : List Rcv) (m : Memory) (t : OtTransport)
    → t.st ≡ st_receiving
    → IsOutcome st_receiving (setup t) (pump_recv rs m t).0
unfolding pump_recv
receives [] m t s = stays st_receiving t s (ground arith)
receives (no_data ∷ rs) m t s = reads_or_waits t m _ _ s (stays st_receiving t s (ground arith))
receives (look e ∷ rs) m t s = reads_or_waits t m _ _ s (looks e t s)
receives (lost ∷ rs) m t s =
    reads_or_waits t m _ _ s (gives_up (call snd_orderly) t (finishes (call snd_orderly t)))
receives (got [] ∷ rs) m t s =
    reads_or_waits t m _ _ s (gives_up (call snd_orderly) t (finishes (call snd_orderly t)))
receives (got (c ∷ cs) ∷ rs) m t s = elim (appends m (delivered (c ∷ cs) t) (c ∷ cs)) [
  | inl refused ↦
      rw (refused, pump_recv)
        (reads_or_waits t m _ _ s (
          fails st_receiving (dropped (c ∷ cs) (delivered (c ∷ cs) t)) stream_error _
            (λ t' e. inl e)))
  | inr (t', e, same, s') ↦
      rw (e, pump_recv)
        (reads_or_waits t m _ _ s (
          subst
            (λ c'.
              IsOutcome st_receiving c'
                (pump_recv rs (append m (delivered (c ∷ cs) t) (c ∷ cs)).1 t').0)
            same (receives rs _ t' (s' ∙ s))))
]

pub slices :
    (m : Memory) (p : Provider) (g : Globals) (t : OtTransport) (s : State)
    → t.st ≡ s
    → s ≢ st_failed
    → IsOutcome s (setup t) (slice m p g t s).0
unfolding slice pump_connect
slices m p g t st_init e ok = opens p g t
slices m p g t st_connecting e ok = lands p _ t e
slices m p g t st_sending e ok = sends m p t e
slices m p g t st_receiving e ok = receives p.reads m t e
slices m p g t st_done e ok = stays st_done t e ok
slices m p g t st_failed e ok = absurd (ok refl)

-- The reports of a poll: those of its slice, and the two deadlines.
abbrev pub poll_reports : State → List (TxError × Bytes)
poll_reports s =
    (timeout_error, codes "Timed out connecting to")
    ∷ (timeout_error, codes "Timed out talking to")
    ∷ reports s

-- One poll of a transaction in state `s`.
pub record IsPolled (s : State) (c : Setup) (t' : OtTransport) : Type 0 where
  pub settings : setup t' ≡ c
  pub step : Next s t'.st
  pub report : t'.st ≡ st_failed → IsTold (poll_reports s) c t'

-- A deadline has passed.
expires :
    (s : State) (c : Setup) (t : OtTransport) (what : Bytes)
    → setup t ≡ c
    → ((t' : OtTransport)
        → (t'.tx.error ≡ timeout_error) × (t'.tx.message ≡ message_of what c)
        → IsTold (poll_reports s) c t')
    → IsPolled s c (fail t timeout_error what)
expires s c t what q listed =
    let (same, st, code, text) = fail_told t timeout_error what in
    record {
      settings = same ∙ q;
      step = subst (Next s) (sym st) (broke s);
      report = λ _. listed (fail t timeout_error what) (code, text ∙ ap (message_of what) q);
    }

pub checks :
    (now : ℕ) (s : State) (c : Setup) (t : OtTransport)
    → IsOutcome s c t
    → IsPolled s c (check_time now t)
unfolding check_time
checks now s c t h =
    if-both (IsPolled s c) (not (is_running t.tx.status)) _ _ (λ _. kept)
      (λ _.
        if-both (IsPolled s c)
          (is_connecting t.st && ltb deadline_ticks (ticks_since now t.connect_tick)) _ _
          (λ _. expires s c t _ h.same (λ t' e. inl e))
          (λ _.
            if-both (IsPolled s c)
              (not (t.tx.streaming && is_receiving t.st)
                && ltb watchdog_ticks (ticks_since now t.start_tick))
              _ _ (λ _. expires s c t _ h.same (λ t' e. inr (inl e))) (λ _. kept)))
  where
    kept : IsPolled s c t
    kept = record { settings = h.same; step = h.next; report = λ f. inr (inr (h.told f)) }

-- The guard of `cq_tx_poll`.
pub busy : (b : Bool) (s : Status) → b ≡ false → s ≡ running → (b || not (is_running s)) ≡ true → ⊥
busy b s c r e = ground (arith, c, r, e)

pub under_way :
    (b : Bool) (s : Status) → (b || not (is_running s)) ≡ false → (b ≡ false) × (s ≡ running)
under_way true s e = absurd (ground arith)
under_way false running e = (refl, refl)
under_way false done e = absurd (ground arith)
under_way false failed e = absurd (ground arith)

-- A poll of a transaction that is under way makes at most one transition of the state machine, and
-- leaves the host, the port, the kind and the ticks alone; and when it fails the transaction, the
-- error code is the one of its message, which names the host and the port and says what the state at
-- hand can blame: the endpoint, the name or the connect, the connection, the write, the read, the
-- memory, or one of the two deadlines.
pub poll-IsPolled :
    (m : Memory) (p : Provider) (g : Globals) (now : ℕ) (t : OtTransport)
    → t.tx.cancelled ≡ false
    → t.tx.status ≡ running
    → t.st ≢ st_failed
    → IsPolled t.st (setup t) (poll m p g now t).0
unfolding poll
poll-IsPolled m p g now t live run ok =
    if-both (λ (o : OtTransport × Globals × Memory). IsPolled t.st (setup t) o.0)
      (t.tx.cancelled || not (is_running t.tx.status)) _ _
      (λ e. absurd (busy t.tx.cancelled t.tx.status live run e))
      (λ _. checks now t.st (setup t) _ (slices m p g t t.st refl ok))
