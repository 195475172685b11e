-- ===== src/Transport/Settles.antt =====
-- A whole transaction: its request and how it ends.
use casquinha.Prelude.{
  ◌&&◌, subst, ℕ, suc, zero, ◌≡◌, refl, sym, ap, ◌∙◌, arith, Bool, true, false, List, [], ◌∷◌, ◌++◌,
  Bytes, append_assoc, append-nil, take, drop, take-append-drop, inl, inr, ◌⊎◌, Bool-cases,
  Option-cases, if◌then◌else◌, length, ◌==◌,
}
use casquinha.Alloc.{Memory, malloc}
use casquinha.Transport.{
  Transport, running, done, failed, Net, Recv, got, eof, would_block, broken_pipe, connect_error,
  fail, append, connect_any, connect_and_send, send_all, read_error, read_all, run, poll,
  is_running,
}
use casquinha.Transport.Buffer.{append-cases}

-- The line is written whole.
send_all-wire :
    (ws : List ℕ) (wire rest : Bytes)
    → (send_all ws wire rest).0 ≡ true
    → (send_all ws wire rest).1 ≡ wire ++ rest
unfolding send_all
send_all-wire ws wire [] h = rw (append-nil wire) refl
send_all-wire [] wire (c ∷ cs) h = refl
send_all-wire (zero ∷ ws) wire (c ∷ cs) h = absurd (ground arith)
send_all-wire (suc w ∷ ws) wire (c ∷ cs) h =
    send_all-wire ws (wire ++ take (suc w) (c ∷ cs)) (drop (suc w) (c ∷ cs)) h
    ∙ append_assoc wire (take (suc w) (c ∷ cs)) (drop (suc w) (c ∷ cs))
    ∙ ap (λ r. wire ++ r) (take-append-drop (suc w) (c ∷ cs))

-- The bytes before the stream ends in whatever way.
abbrev pub offered : List Recv → Bytes
offered [] = []
offered (got b ∷ rs) = b ++ offered rs
offered (eof ∷ rs) = []
offered (would_block ∷ rs) = []
offered (broken_pipe ∷ rs) = []

-- The transaction is over: with all that came, or failed.
pub IsSettled : Bytes → Transport → Type 0
IsSettled all t = ((t.status ≡ done) × (t.data' ≡ all)) ⊎ (t.status ≡ failed)

read_error-IsSettled : (t : Transport) → IsSettled t.data' (read_error t)
unfolding IsSettled fail
read_error-IsSettled t = elim (Bool-cases (length t.data' == 0)) [
  | inl empty ↦ rw empty (inr refl)
  | inr some_ ↦ rw some_ (inl (refl, refl))
]

read_all-IsSettled :
    (rs : List Recv) (m : Memory) (t : Transport)
    → IsSettled (t.data' ++ offered rs) (read_all rs m t).0
unfolding read_all IsSettled fail
read_all-IsSettled [] m t = rw (append-nil t.data') (inl (refl, refl))
read_all-IsSettled (eof ∷ rs) m t = rw (append-nil t.data') (inl (refl, refl))
read_all-IsSettled (would_block ∷ rs) m t = rw (append-nil t.data') (read_error-IsSettled t)
read_all-IsSettled (broken_pipe ∷ rs) m t = rw (append-nil t.data') (read_error-IsSettled t)
read_all-IsSettled (got b ∷ rs) m t = elim (append-cases m t b) [
  | inl refused ↦ rw (refused, read_all) (inr refl)
  | inr (c, e, fits) ↦
      rw (e, read_all, ← append_assoc t.data' b (offered rs))
        (read_all-IsSettled rs (append m t b).1 (record t { data' = t.data' ++ b; cap = c }))
]

-- The socket is open and the line is written whole, or the transaction has failed.
unfoldable pub IsConnect : Transport → Transport × Bytes × Bool × Memory → Type 0
IsConnect t (t', wire, open', m) =
    ((open' ≡ true) × (wire ≡ t.selector ++ 13 ∷ 10 ∷ []) × (t' ≡ t))
    ⊎ ((open' ≡ false) × (t'.status ≡ failed) × (t'.data' ≡ t.data'))

pub connect_and_send-IsConnect :
    (m : Memory) (net : Net) (t : Transport) → IsConnect t (connect_and_send m net t)
unfolding connect_and_send IsConnect fail
connect_and_send-IsConnect m net t = elim (Option-cases net.dials) [
  | inl unresolved ↦ rw (unresolved, connect_and_send) (inr (refl, refl, refl))
  | inr (ds, resolved) ↦
      rw (resolved, connect_and_send)
        (elim (Option-cases (connect_any connect_error ds)) [
          | inr (e, unreachable) ↦ rw unreachable (inr (refl, refl, refl))
          | inl connected ↦ rw connected (elim (Bool-cases (malloc m).0) [
            | inr refused ↦ rw refused (inr (refl, refl, refl))
            | inl granted ↦
                rw granted
                  (elim (Bool-cases (send_all net.sends [] (t.selector ++ 13 ∷ 10 ∷ [])).0) [
                    | inl sent ↦ rw sent (
                        inl (
                          refl,
                          send_all-wire net.sends [] (t.selector ++ 13 ∷ 10 ∷ []) sent,
                          refl,
                        ))
                    | inr unsent ↦ rw unsent (inr (refl, refl, refl))
                  ])
          ])
        ])
]

run-IsSettled :
    (m : Memory) (net : Net) (t : Transport)
    → IsSettled (t.data' ++ offered net.recvs) (run m net t).0
unfolding run IsSettled IsConnect
run-IsSettled m net t = elim (connect_and_send-IsConnect m net t) [
  | inl (open_, wire, same) ↦ rw (open_, run, same) (read_all-IsSettled net.recvs _ t)
  | inr (shut, lost, kept) ↦ rw (shut, run) (inr lost)
]

last_branch :
    (a b c : Bool) (w x y z : Transport × Memory)
    → a ≡ false
    → b ≡ false
    → c ≡ true
    → (if a then w else if b then x else if c then y else z) ≡ y
last_branch true b c w x y z p q r = absurd (ground arith)
last_branch false true c w x y z p q r = absurd (ground arith)
last_branch false false true w x y z p q r = refl
last_branch false false false w x y z p q r = absurd (ground arith)

-- Whatever the system answers and whichever requests for memory are refused, one poll of a started
-- transaction that is no stream and is not cancelled ends it: it has failed, or it is done and holds all the bytes that came before the end
-- of the stream, in order.
pub poll-IsSettled :
    (m : Memory) (net : Net) (t : Transport)
    → t.started ≡ true
    → t.status ≡ running
    → t.cancelled ≡ false
    → t.streaming ≡ false
    → IsSettled (t.data' ++ offered net.recvs) (poll m net t).0
unfolding poll
poll-IsSettled m net t on now live whole =
    subst (λ (o : Transport × Memory). IsSettled (t.data' ++ offered net.recvs) o.0)
      (sym (
        last_branch t.cancelled t.streaming (t.started && is_running t.status) _ _ _ _ live whole
          (rw (on, now) refl)))
      (run-IsSettled m net (record t { started = false }))
