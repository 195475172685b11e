-- ===== src/Ot/Histories.antt =====
-- A transaction over its whole life: any calls of the event loop, in any order, with the notifier
-- running between them.
use casquinha.Ot.Sound.{call-IsFair, teardown-IsFair, IsFair}
use casquinha.Ot.Polls.{poll-IsSound}
use casquinha.Ot.Ends.{is_live, IsSound}
use casquinha.Transport.{fresh, drain as posix_drain}
use casquinha.Transport.Buffer.{drain_lem}
use casquinha.Prelude.{
  sym, inr, if-both, not, inl, arith, ap, ◌&&◌, Bool, ◌∙◌, Bytes, append_assoc, Option, List, ◌++◌,
  ◌≡◌, refl, true, false, [], ◌∷◌, ℕ,
}
use casquinha.Ot.{
  snd_orderly, ℤ, Memory, ready, teardown, Event, OtTransport, Globals, Provider, t_connect,
  t_disconnect, t_ordrel, other_event, no_event,
}
use casquinha.Ot.Connect.{conn_notifier}
use casquinha.Ot.Loop.{poll, drain, cancel, start}

-- What the loop or the notifier does next.
pub data Action : Type 0 where
  starts : ℕ → Action
  polls : Memory → Provider → Globals → ℕ → Action
  drains : ℕ → Action
  cancels : Action
  notifies : Event → Action

abbrev pub act : OtTransport → Action → OtTransport
act t (starts tick) = start t tick
act t (polls m p g now) = (poll m p g now t).0
act t (drains n) = (drain t n).0
act t cancels = cancel t
act t (notifies e) = conn_notifier t e

abbrev pub acts : OtTransport → List Action → OtTransport
acts t [] = t
acts t (a ∷ rest) = acts (act t a) rest

drain-IsSound : (t : OtTransport) (n : ℕ) → IsSound t → IsSound (drain t n).0
unfolding drain posix_drain
drain-IsSound t n h = record {
  fair = record {
    balanced = h.fair.balanced;
    wired = h.fair.wired;
    within = h.fair.within;
    prepared = h.fair.prepared;
    kept =
        append_assoc t.ledger.drained (posix_drain t.tx n).1 _
        ∙ ap (λ r. t.ledger.drained ++ r)
            (sym (append_assoc (posix_drain t.tx n).1 _ t.ledger.refused)
              ∙ ap (λ r. r ++ t.ledger.refused) (drain_lem t.tx n).0)
        ∙ h.fair.kept;
  };
  ended = h.ended;
  opened = h.opened;
  blamed = h.blamed;
  sent = h.sent;
  lossless = h.lossless;
}

cancel-IsSound : (t : OtTransport) → IsSound t → IsSound (cancel t)
unfolding cancel teardown
cancel-IsSound t h =
    if-both (λ t'. IsFair t' → IsSound t') t.tx.fd _ _
      (λ _ f. record {
        fair = f;
        ended = h.ended;
        opened = and_false (is_live t.st);
        blamed = h.blamed;
        sent = h.sent;
        lossless = h.lossless;
      })
      (λ shut f. record {
        fair = f;
        ended = h.ended;
        opened = shut ∙ and_false (is_live t.st);
        blamed = h.blamed;
        sent = h.sent;
        lossless = h.lossless;
      })
      (if-both IsFair t.tx.fd _ _
        (λ open_. teardown-IsFair _ open_ (call-IsFair _ snd_orderly refl refl marked))
        (λ _. marked))
  where
    marked : IsFair (record t { tx = record t.tx { cancelled = true } })
    marked = record {
      balanced = h.fair.balanced;
      wired = h.fair.wired;
      within = h.fair.within;
      prepared = h.fair.prepared;
      kept = h.fair.kept;
    }

    and_false : (b : Bool) → false ≡ (b && not true)
    and_false b = ground arith

start-IsSound : (t : OtTransport) (tick : ℕ) → IsSound t → IsSound (start t tick)
unfolding start
start-IsSound t tick h = record {
  fair = record {
    balanced = h.fair.balanced;
    wired = h.fair.wired;
    within = h.fair.within;
    prepared = h.fair.prepared;
    kept = h.fair.kept;
  };
  ended = h.ended;
  opened = h.opened;
  blamed = h.blamed;
  sent = h.sent;
  lossless = h.lossless;
}

noted-IsSound : (t : OtTransport) (e : Event) → IsSound t → IsSound (record t { conn_event = e })
noted-IsSound t e h = record {
  fair = record {
    balanced = h.fair.balanced;
    wired = h.fair.wired;
    within = h.fair.within;
    prepared = h.fair.prepared;
    kept = h.fair.kept;
  };
  ended = h.ended;
  opened = h.opened;
  blamed = h.blamed;
  sent = h.sent;
  lossless = h.lossless;
}

notify-IsSound : (t : OtTransport) (e : Event) → IsSound t → IsSound (conn_notifier t e)
unfolding conn_notifier
notify-IsSound t t_connect h = noted-IsSound t t_connect h
notify-IsSound t t_disconnect h = noted-IsSound t t_disconnect h
notify-IsSound t no_event h = h
notify-IsSound t t_ordrel h = h
notify-IsSound t other_event h = h

act-IsSound : (t : OtTransport) (a : Action) → IsSound t → IsSound (act t a)
act-IsSound t (starts tick) h = start-IsSound t tick h
act-IsSound t (polls m p g now) h = poll-IsSound m p g now t h
act-IsSound t (drains n) h = drain-IsSound t n h
act-IsSound t cancels h = cancel-IsSound t h
act-IsSound t (notifies e) h = notify-IsSound t e h

acts-IsSound : (t : OtTransport) (rest : List Action) → IsSound t → IsSound (acts t rest)
acts-IsSound t [] h = h
acts-IsSound t (a ∷ rest) h = acts-IsSound (act t a) rest (act-IsSound t a h)

ready-IsSound :
    (host : Option Bytes) (port : ℤ) (selector : Option Bytes)
    → IsSound (ready (fresh host port selector))
unfolding ready fresh
ready-IsSound host port selector = record {
  fair = record {
    balanced = refl;
    wired = refl;
    within = omega arith;
    prepared = inl (refl, refl);
    kept = refl;
  };
  ended = refl;
  opened = refl;
  blamed = inr (refl, (refl, refl));
  sent = λ e. absurd (ground arith);
  lossless = λ _. refl;
}

-- Through any calls on a new transaction, with the notifier running anywhere between them, whatever
-- Open Transport answers and whichever requests for memory are refused: every endpoint that was opened
-- is closed once, but for the one in use; the endpoint is open just while the transaction is under way
-- and not cancelled; an error is recorded just when it has failed; what was sent is a prefix of the
-- selector and CR LF, and all of it when the answer is awaited or complete; and the bytes that were
-- handed on, then those in the buffer, are all the bytes that Open Transport has delivered, but for the
-- last ones when there was no memory for them, and then the transaction has failed.
pub history-IsSound :
    (host : Option Bytes) (port : ℤ) (selector : Option Bytes) (actions : List Action)
    → IsSound (acts (ready (fresh host port selector)) actions)
history-IsSound host port selector actions =
    acts-IsSound _ actions (ready-IsSound host port selector)
