-- ===== src/Ot/Slices.antt =====
-- Every slice of a poll leaves the transaction sound, whatever Open Transport answers.
use casquinha.Transport.Buffer.{append-cases}
use casquinha.Transport.{stream_error, running}
use casquinha.Ot.Sound.{IsFair, call-IsFair, is_closing, is_opening, line}
use casquinha.Ot.Ends.{
  is_failed, fail-IsSound, is_after, finish-IsSound, status_of, IsSound, is_live, IsAlive,
}
use casquinha.Ot.Transfer.{delivered, dropped, pump_recv, give_up, append, recv_look}
use casquinha.Prelude.{
  append-nil, ap, append_assoc, arith, sym, ◌⊎◌, inr, length, if◌then◌else◌, inl, ◌∙◌, Bytes, Bool,
  List, ltb, ◌++◌, ◌≡◌, refl, true, false, [], if-both, none, some, ◌∷◌,
}
use casquinha.Ot.{
  st_done, st_sending, st_connecting, st_init, st_failed, State, got, no_data, look, lost,
  rcv_disconnect, rcv_orderly, snd_orderly, call, Rcv, finish, Memory, Event, Call, OtTransport,
  st_receiving, t_connect, t_disconnect, t_ordrel, other_event, no_event,
}

pub call-IsAlive :
    (t : OtTransport) (c : Call)
    → is_opening c ≡ false
    → is_closing c ≡ false
    → IsAlive t
    → IsAlive (call c t)
call-IsAlive t c o k h = record {
  fair = call-IsFair t c o k h.fair;
  clean = h.clean;
  fd_open = h.fd_open;
  status_running = h.status_running;
  not_cancelled = h.not_cancelled;
  lossless = h.lossless;
}

pub not_failed : (s : State) → is_live s ≡ true → is_failed s ≡ false
not_failed st_failed e = absurd (ground arith)
not_failed st_init e = refl
not_failed st_connecting e = refl
not_failed st_sending e = refl
not_failed st_receiving e = refl
not_failed st_done e = refl

pub alive-IsSound :
    (t : OtTransport)
    → IsAlive t
    → is_live t.st ≡ true
    → running ≡ status_of t.st
    → (is_after t.st ≡ true → t.ledger.wire ≡ line t)
    → IsSound t
alive-IsSound t h l r w = record {
  fair = h.fair;
  ended = h.status_running ∙ r;
  opened = rw (h.fd_open, l, h.not_cancelled) refl;
  blamed = inr (not_failed t.st l, h.clean);
  sent = w;
  lossless = λ _. h.lossless;
}

-- The state moves on, and nothing else.
pub moved-IsSound :
    (s : State) (t : OtTransport)
    → IsAlive t
    → is_live s ≡ true
    → running ≡ status_of s
    → (is_after s ≡ true → t.ledger.wire ≡ line t)
    → IsSound (record t { st = s })
moved-IsSound s t h l r w =
    alive-IsSound (record t { st = s })
      (record {
        fair = record {
          balanced = h.fair.balanced;
          wired = h.fair.wired;
          within = h.fair.within;
          prepared = h.fair.prepared;
          kept = h.fair.kept;
        };
        clean = h.clean;
        fd_open = h.fd_open;
        status_running = h.status_running;
        not_cancelled = h.not_cancelled;
        lossless = h.lossless;
      })
      l r w

give_up-IsSound :
    (before : OtTransport → OtTransport) (t : OtTransport)
    → IsAlive t
    → IsSound (finish (before t))
    → IsSound (give_up before t)
unfolding give_up
give_up-IsSound before t h k =
    if-both IsSound (ltb 0 (length t.tx.data')) _ _ (λ _. k)
      (λ _. fail-IsSound t stream_error _ (ground arith) h.fair)

append-cases_lem :
    (m : Memory) (t : OtTransport) (buf : Bytes)
    → IsAlive t
    → ((append m (delivered buf t) buf).0 ≡ none)
      ⊎ ((t' : OtTransport) × ((append m (delivered buf t) buf).0 ≡ some t')
          × IsAlive t'
          × (t'.st ≡ t.st)
          × (t'.ledger.wire ≡ t.ledger.wire)
          × (t'.tx.selector ≡ t.tx.selector))
unfolding append
append-cases_lem m t buf h = elim (append-cases m t.tx buf) [
  | inl refused ↦ rw (refused, append) (inl refl)
  | inr (c, e, fits) ↦
      rw (e, append)
        (inr (
          _,
          refl,
          record {
            fair = record {
              balanced = h.fair.balanced;
              wired = h.fair.wired;
              within = h.fair.within;
              prepared = h.fair.prepared;
              kept = grow t.ledger.refused h.lossless h.fair.kept;
            };
            clean = h.clean;
            fd_open = h.fd_open;
            status_running = h.status_running;
            not_cancelled = h.not_cancelled;
            lossless = h.lossless;
          },
          refl,
          refl,
          refl,
        ))
]
  where
    grow :
        (r : Bytes)
        → r ≡ []
        → t.ledger.drained ++ (t.tx.data' ++ r) ≡ t.ledger.received
        → t.ledger.drained ++ ((t.tx.data' ++ buf) ++ r) ≡ t.ledger.received ++ buf
    grow r e k =
        let bare : t.ledger.drained ++ t.tx.data' ≡ t.ledger.received =
          ap (λ d. t.ledger.drained ++ d)
            (sym (ap (λ q. t.tx.data' ++ q) e ∙ append-nil t.tx.data'))
          ∙ k in
        ap (λ d. t.ledger.drained ++ d)
          (ap (λ q. (t.tx.data' ++ buf) ++ q) e ∙ append-nil (t.tx.data' ++ buf))
        ∙ sym (append_assoc t.ledger.drained t.tx.data' buf)
        ∙ ap (λ q. q ++ buf) bare

-- A chunk for which there is no memory.
dropped-IsFair : (t : OtTransport) (buf : Bytes) → IsFair t → IsFair (dropped buf (delivered buf t))
dropped-IsFair t buf h = record {
  balanced = h.balanced;
  wired = h.wired;
  within = h.within;
  prepared = h.prepared;
  kept =
      ap (λ d. t.ledger.drained ++ d) (sym (append_assoc t.tx.data' t.ledger.refused buf))
      ∙ sym (append_assoc t.ledger.drained (t.tx.data' ++ t.ledger.refused) buf)
      ∙ ap (λ q. q ++ buf) h.kept;
}

rescue-IsSound :
    (t : OtTransport) → IsAlive t → t.ledger.wire ≡ line t → IsSound (give_up (call snd_orderly) t)
rescue-IsSound t h w =
    give_up-IsSound (call snd_orderly) t h
      (finish-IsSound _ (call-IsAlive t snd_orderly refl refl h) w)

look-IsSound :
    (e : Event) (t : OtTransport)
    → IsAlive t
    → t.st ≡ st_receiving
    → t.ledger.wire ≡ line t
    → IsSound (recv_look e t)
unfolding recv_look
look-IsSound t_ordrel t h s w =
    finish-IsSound _ (call-IsAlive _ snd_orderly refl refl (call-IsAlive t rcv_orderly refl refl h))
      w
look-IsSound t_disconnect t h s w =
    let h' = call-IsAlive t rcv_disconnect refl refl h in
    give_up-IsSound (λ t'. t') _ h' (finish-IsSound _ h' w)
look-IsSound no_event t h s w = alive-IsSound t h (rw s refl) (rw s refl) (λ _. w)
look-IsSound t_connect t h s w = alive-IsSound t h (rw s refl) (rw s refl) (λ _. w)
look-IsSound other_event t h s w = alive-IsSound t h (rw s refl) (rw s refl) (λ _. w)

-- The high-water mark is passed, or a read is made.
unless_full :
    (t : OtTransport) (m : Memory) (full : Bool) (o : OtTransport × Memory)
    → IsAlive t
    → t.st ≡ st_receiving
    → t.ledger.wire ≡ line t
    → IsSound o.0
    → IsSound (if full then (t, m) else o).0
unless_full t m true o h s w k = alive-IsSound t h (rw s refl) (rw s refl) (λ _. w)
unless_full t m false o h s w k = k

pub recv-IsSound :
    (rs : List Rcv) (m : Memory) (t : OtTransport)
    → IsAlive t
    → t.st ≡ st_receiving
    → t.ledger.wire ≡ line t
    → IsSound (pump_recv rs m t).0
unfolding pump_recv
recv-IsSound [] m t h s w = alive-IsSound t h (rw s refl) (rw s refl) (λ _. w)
recv-IsSound (no_data ∷ rs) m t h s w =
    unless_full t m _ _ h s w (alive-IsSound t h (rw s refl) (rw s refl) (λ _. w))
recv-IsSound (look e ∷ rs) m t h s w = unless_full t m _ _ h s w (look-IsSound e t h s w)
recv-IsSound (lost ∷ rs) m t h s w = unless_full t m _ _ h s w (rescue-IsSound t h w)
recv-IsSound (got [] ∷ rs) m t h s w = unless_full t m _ _ h s w (rescue-IsSound t h w)
recv-IsSound (got (c ∷ cs) ∷ rs) m t h s w = elim (append-cases_lem m t (c ∷ cs) h) [
  | inl refused ↦
      rw (refused, pump_recv)
        (unless_full t m _ _ h s w (
          fail-IsSound (dropped (c ∷ cs) (delivered (c ∷ cs) t)) stream_error _ (ground arith)
            (dropped-IsFair t (c ∷ cs) h.fair)))
  | inr (t', e, h', s', w', l') ↦
      rw (e, pump_recv)
        (unless_full t m _ _ h s w (
          recv-IsSound rs _ t' h' (s' ∙ s)
            (w' ∙ w ∙ ap (λ (x : Bytes). x ++ 13 ∷ 10 ∷ []) (sym l'))))
]
