-- ===== src/Ot/Outcomes.antt =====
-- Where a slice may lead, and what it tells when it fails.
use casquinha.Ot.Sound.{line}
use casquinha.Alloc.{malloc}
use casquinha.Ot.Transfer.{sent, send_from, pump_send, give_up}
use casquinha.Ot.Connect.{
  ensure_up, open_and_connect, dial, connect_endpoint, issue_connect, on_event,
}
use casquinha.Prelude.Decimal.{print_int}
use casquinha.Transport.{stream_error, connect_error, fail as posix_fail}
use casquinha.Prelude.{
  false, true, none, drop, inl, Option, Option-cases, length, not, inr, arith, ◌∙◌, ltb, ◌≢◌, sym,
  codes, ◌⊎◌, subst, take, Bytes, Bool, List, ◌++◌, ◌≡◌, refl, [], ◌∷◌, ℕ, if-both,
}
use casquinha.Ot.{
  other_event, t_ordrel, rejected, no_event, t_disconnect, broken, t_connect, in_progress,
  rcv_disconnect, flow, call, connected, closed, some, took, Globals, Snd, Event, Memory, Provider,
  ConnectAnswer, finish, ℤ, teardown, TxError, fail, OtTransport, State, st_init, st_connecting,
  st_sending, st_receiving, st_done, st_failed,
}

-- The transitions that one slice can make.
pub data Next : State → State → Type 0 where
  wait : (s : State) → Next s s
  dialled : Next st_init st_connecting
  connected_at_once : Next st_init st_sending
  accepted : Next st_connecting st_sending
  asked : Next st_sending st_receiving
  answered : Next st_receiving st_done
  broke : (s : State) → Next s st_failed

-- What a slice can blame: the code, and the start of the message.
abbrev pub reports : State → List (TxError × Bytes)
reports st_init =
    (connect_error, codes "Open Transport unavailable for")
    ∷ (connect_error, codes "Could not open a TCP endpoint to")
    ∷ (connect_error, codes "Could not bind a socket to")
    ∷ (connect_error, codes "Could not resolve")
    ∷ (connect_error, codes "Could not connect to")
    ∷ []
reports st_connecting =
    (connect_error, codes "Could not connect to")
    ∷ (connect_error, codes "Connection refused by")
    ∷ []
reports st_sending =
    (stream_error, codes "Out of memory for") ∷ (stream_error, codes "Write failed to") ∷ []
reports st_receiving =
    (stream_error, codes "Out of memory reading from")
    ∷ (stream_error, codes "Read failed from")
    ∷ []
reports st_done = []
reports st_failed = []

-- What no slice changes: the two ticks, `streaming`, the host and the port.
abbrev pub Setup : Type 0
Setup = ℕ × ℕ × Bool × Bytes × ℤ

abbrev pub setup : OtTransport → Setup
setup t = (t.start_tick, t.connect_tick, t.tx.streaming, t.tx.host, t.tx.port)

-- The message names the host and the port.
abbrev pub message_of : Bytes → Setup → Bytes
message_of what (_, _, _, host, port) =
    take 255 (what ++ b' ' ∷ host ++ b':' ∷ print_int port ++ b'.' ∷ [])

-- The transaction has failed with one of the reports.
abbrev pub IsTold : List (TxError × Bytes) → Setup → OtTransport → Type 0
IsTold [] c t' = ⊥
IsTold ((e, what) ∷ rs) c t' =
    ((t'.tx.error ≡ e) × (t'.tx.message ≡ message_of what c)) ⊎ IsTold rs c t'

-- What a slice of a transaction in state `s` does.
pub record IsOutcome (s : State) (c : Setup) (t' : OtTransport) : Type 0 where
  pub same : setup t' ≡ c
  pub next : Next s t'.st
  pub told : t'.st ≡ st_failed → IsTold (reports s) c t'

pub fail_told :
    (t : OtTransport) (e : TxError) (what : Bytes)
    → let t' = fail t e what in
      (setup t' ≡ setup t)
      × (t'.st ≡ st_failed)
      × (t'.tx.error ≡ e)
      × (t'.tx.message ≡ message_of what (setup t))
unfolding fail posix_fail teardown
fail_told t e what =
    if-both
      (λ t'.
        (setup t' ≡ setup t)
        × (t'.st ≡ st_failed)
        × (t'.tx.error ≡ e)
        × (t'.tx.message ≡ message_of what (setup t)))
      t.tx.fd _ _ (λ _. (refl, refl, refl, refl)) (λ _. (refl, refl, refl, refl))

-- A failure that the state can blame.
pub fails :
    (s : State) (t : OtTransport) (e : TxError) (what : Bytes)
    → ((t' : OtTransport)
        → (t'.tx.error ≡ e) × (t'.tx.message ≡ message_of what (setup t))
        → IsTold (reports s) (setup t) t')
    → IsOutcome s (setup t) (fail t e what)
fails s t e what listed =
    let (same, st, code, text) = fail_told t e what in
    record {
      same = same;
      next = subst (Next s) (sym st) (broke s);
      told = λ _. listed (fail t e what) (code, text);
    }

pub finishes : (t : OtTransport) → IsOutcome st_receiving (setup t) (finish t)
unfolding finish teardown
finishes t = record { same = refl; next = answered; told = λ e. absurd (ground arith) }

-- Nothing changes but the state.
pub moves :
    (s s' : State) (t : OtTransport)
    → t.st ≡ s'
    → Next s s'
    → s' ≢ st_failed
    → IsOutcome s (setup t) t
moves s s' t e n ok = record {
  same = refl;
  next = subst (Next s) (sym e) n;
  told = λ f. absurd (ok (sym e ∙ f));
}

issues :
    (c : ConnectAnswer) (async : Bool) (t : OtTransport)
    → IsOutcome st_init (setup t) (issue_connect c async t)
unfolding issue_connect
issues connected true t = moves st_init st_connecting _ refl dialled (ground arith)
issues connected false t = moves st_init st_sending _ refl connected_at_once (ground arith)
issues in_progress async t = moves st_init st_connecting _ refl dialled (ground arith)
issues rejected async t = fails st_init t connect_error _ (λ t' e. inr (inr (inr (inr (inl e)))))

dials :
    (p : Provider) (upp : Bool) (t : OtTransport) (ip : Option ℕ)
    → IsOutcome st_init (setup t) (dial p upp t ip)
unfolding dial
dials p upp t none = fails st_init t connect_error _ (λ t' e. inr (inr (inr (inl e))))
dials p upp t (some ip) = issues p.connects _ _

endpoints :
    (p : Provider) (upp : Bool) (t : OtTransport)
    → IsOutcome st_init (setup t) (connect_endpoint p upp t)
unfolding connect_endpoint
endpoints p upp t =
    if-both (IsOutcome st_init (setup t)) (not p.binds) _ _
      (λ _. fails st_init t connect_error _ (λ t' e. inr (inr (inl e)))) (λ _. dials p upp t _)

pub opens :
    (p : Provider) (g : Globals) (t : OtTransport)
    → IsOutcome st_init (setup t) (open_and_connect p g t).0
unfolding open_and_connect
opens p g t =
    if-both (λ (o : OtTransport × Globals). IsOutcome st_init (setup t) o.0) (not (ensure_up p g).0)
      _ _ (λ _. fails st_init t connect_error _ (λ t' e. inl e))
      (λ _.
        if-both (λ (o : OtTransport × Globals). IsOutcome st_init (setup t) o.0) (not p.opens) _ _
          (λ _. fails st_init (record t { tx = closed t.tx }) connect_error _ (λ t' e. inr (inl e)))
          (λ _. endpoints p _ _))

pub lands :
    (p : Provider) (e : Event) (t : OtTransport)
    → t.st ≡ st_connecting
    → IsOutcome st_connecting (setup t) (on_event p e t)
unfolding on_event
lands p t_connect t s =
    if-both (IsOutcome st_connecting (setup t)) p.accepts _ _
      (λ _. moves st_connecting st_sending _ refl accepted (ground arith))
      (λ _. fails st_connecting t connect_error _ (λ t' e. inl e))
lands p t_disconnect t s =
    fails st_connecting (call rcv_disconnect t) connect_error _ (λ t' e. inr (inl e))
lands p no_event t s = moves st_connecting st_connecting t s (wait st_connecting) (ground arith)
lands p t_ordrel t s = moves st_connecting st_connecting t s (wait st_connecting) (ground arith)
lands p other_event t s = moves st_connecting st_connecting t s (wait st_connecting) (ground arith)

sends_from :
    (ss : List Snd) (l : Bytes) (t : OtTransport)
    → t.st ≡ st_sending
    → IsOutcome st_sending (setup t) (send_from ss l t)
unfolding send_from sent
sends_from [] l t s =
    if-both (IsOutcome st_sending (setup t)) (ltb t.reqoff (length l)) _ _
      (λ _. moves st_sending st_sending t s (wait st_sending) (ground arith))
      (λ _. moves st_sending st_receiving _ refl asked (ground arith))
sends_from (took n ∷ ss) l t s =
    if-both (IsOutcome st_sending (setup t)) (ltb t.reqoff (length l)) _ _
      (λ _. sends_from ss l (sent n (drop t.reqoff l) t) s)
      (λ _. moves st_sending st_receiving _ refl asked (ground arith))
sends_from (flow ∷ ss) l t s =
    if-both (IsOutcome st_sending (setup t)) (ltb t.reqoff (length l)) _ _
      (λ _. moves st_sending st_sending t s (wait st_sending) (ground arith))
      (λ _. moves st_sending st_receiving _ refl asked (ground arith))
sends_from (broken ∷ ss) l t s =
    if-both (IsOutcome st_sending (setup t)) (ltb t.reqoff (length l)) _ _
      (λ _. fails st_sending t stream_error _ (λ t' e. inr (inl e)))
      (λ _. moves st_sending st_receiving _ refl asked (ground arith))

pub sends :
    (m : Memory) (p : Provider) (t : OtTransport)
    → t.st ≡ st_sending
    → IsOutcome st_sending (setup t) (pump_send m p t).0
unfolding pump_send
sends m p t s = elim (Option-cases t.req) [
  | inr (r, e) ↦ rw (e, pump_send) (sends_from p.sends r t s)
  | inl e ↦
      rw (e, pump_send)
        (if-both (λ (o : OtTransport × Memory). IsOutcome st_sending (setup t) o.0) (malloc m).0 _ _
          (λ _. sends_from p.sends (line t) (record t { req = some (line t); reqoff = 0 }) s)
          (λ _. fails st_sending t stream_error _ (λ t' e. inl e)))
]

pub gives_up :
    (before : OtTransport → OtTransport) (t : OtTransport)
    → IsOutcome st_receiving (setup t) (finish (before t))
    → IsOutcome st_receiving (setup t) (give_up before t)
unfolding give_up
gives_up before t k =
    if-both (IsOutcome st_receiving (setup t)) (ltb 0 (length t.tx.data')) _ _ (λ _. k)
      (λ _. fails st_receiving t stream_error _ (λ t' e. inr (inl e)))
