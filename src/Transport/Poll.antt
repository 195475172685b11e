-- ===== src/Transport/Poll.antt =====
-- One poll of an endless stream and the drain after it.
use casquinha.Transport.Reads.{TakesAll, offered_to, pump_from-TakesAll}
use casquinha.Transport.{running, failed}
use casquinha.Transport.Stream.{bytes_of, AllChunks, IsFed, unread, pump_from-IsFed}
use casquinha.Prelude.{
  if-both, ◌⊎◌, length-take, length-drop, take-append-drop, ltb, ◌&&◌, ℕ, ◌+◌, ◌≡◌, ◌≤◌, refl, sym,
  ap, subst, ◌∙◌, arith, Bool, true, false, List, ◌++◌, Bytes, take, inl, inr, Bool-cases,
  if◌then◌else◌, length,
}
use casquinha.Alloc.{Memory}
use casquinha.Transport.{
  connect_and_send, run, poll, drain, is_running, is_running, Net, poll, drain, pump_stream,
  Transport, Recv, chunk_size, high_water, pump_from,
}
use casquinha.Transport.Settles.{IsConnect, connect_and_send-IsConnect}

branch_one :
    (a b : Bool) (x y z : Transport × Memory) → a ≡ true → (if a then x else if b then y else z) ≡ x
branch_one true b x y z p = refl
branch_one false b x y z p = absurd (ground arith)

branch_two :
    (a b : Bool) (x y z : Transport × Memory)
    → a ≡ false
    → b ≡ true
    → (if a then x else if b then y else z) ≡ y
branch_two true b x y z p q = absurd (ground arith)
branch_two false true x y z p q = refl
branch_two false false x y z p q = absurd (ground arith)

branch_three :
    (a b : Bool) (x y z : Transport × Memory)
    → a ≡ false
    → b ≡ false
    → (if a then x else if b then y else z) ≡ z
branch_three true b x y z p q = absurd (ground arith)
branch_three false true x y z p q = absurd (ground arith)
branch_three false false x y z p q = refl

-- A poll of a stream reads, connects and reads, or fails to connect.
pump_stream-cases :
    (P : Transport → Type 0) (m : Memory) (net : Net) (t : Transport)
    → (t.fd ≡ true → P (pump_from net.recvs m t).0)
    → P (pump_from net.recvs (connect_and_send m net t).3 (record t { fd = true })).0
    → ((t' : Transport) → t'.status ≡ failed → t'.data' ≡ t.data' → P t')
    → P (pump_stream m net t).0
unfolding pump_stream IsConnect
pump_stream-cases P m net t reads opens fails = elim (Bool-cases t.fd) [
  | inl open_ ↦ subst (λ (o : Transport × Memory). P o.0) (sym (first open_)) (reads open_)
  | inr shut ↦ elim (connect_and_send-IsConnect m net t) [
    | inl (on, wire, same) ↦
        subst (λ (o : Transport × Memory). P o.0) (sym (second shut on same)) opens
    | inr (off, lost, kept) ↦
        subst (λ (o : Transport × Memory). P o.0) (sym (third shut off))
          (fails (connect_and_send m net t).0 lost kept)
  ]
]
  where
    sent : Transport × Memory
    sent = ((connect_and_send m net t).0, (connect_and_send m net t).3)

    opened : Transport × Memory
    opened =
        pump_from net.recvs (connect_and_send m net t).3
          (record (connect_and_send m net t).0 { fd = true })

    first : t.fd ≡ true → pump_stream m net t ≡ pump_from net.recvs m t
    first e = branch_one t.fd (connect_and_send m net t).2 (pump_from net.recvs m t) opened sent e

    second :
        t.fd ≡ false
        → (connect_and_send m net t).2 ≡ true
        → (connect_and_send m net t).0 ≡ t
        → pump_stream m net t
          ≡ pump_from net.recvs (connect_and_send m net t).3 (record t { fd = true })
    second e on same =
        branch_two t.fd (connect_and_send m net t).2 (pump_from net.recvs m t) opened sent e on
        ∙ ap
            (λ (u : Transport).
              pump_from net.recvs (connect_and_send m net t).3 (record u { fd = true }))
            same

    third :
        t.fd ≡ false
        → (connect_and_send m net t).2 ≡ false
        → pump_stream m net t ≡ ((connect_and_send m net t).0, (connect_and_send m net t).3)
    third e off =
        branch_three t.fd (connect_and_send m net t).2 (pump_from net.recvs m t) opened sent e off

pump_stream-IsFed :
    (m : Memory) (net : Net) (t : Transport)
    → AllChunks net.recvs
    → length t.data' ≤ high_water + chunk_size
    → IsFed t net.recvs (pump_stream m net t).0
pump_stream-IsFed m net t chunks h =
    let again =
      pump_from-IsFed net.recvs (connect_and_send m net t).3 (record t { fd = true }) chunks h in
    pump_stream-cases (IsFed t net.recvs) m net t (λ _. pump_from-IsFed net.recvs m t chunks h)
      (record { reads = again.reads; fed = again.fed; bounded = again.bounded })
      (λ t' lost kept. unread t t' net.recvs kept h)

streamed_way :
    (t : Transport) (rs : List Recv) (a b c : Bool) (m : Memory) (y z : Transport × Memory)
    → b ≡ true
    → IsFed t rs t
    → IsFed t rs y.0
    → let out : Transport × Memory =
        if a then (t, m) else if b then (if c then y else (t, m)) else z in
      IsFed t rs out.0
streamed_way t rs true b c m y z p q r = q
streamed_way t rs false false c m y z p q r = absurd (ground arith)
streamed_way t rs false true true m y z p q r = r
streamed_way t rs false true false m y z p q r = q

poll-IsFed :
    (m : Memory) (net : Net) (t : Transport)
    → t.streaming ≡ true
    → AllChunks net.recvs
    → length t.data' ≤ high_water + chunk_size
    → IsFed t net.recvs (poll m net t).0
unfolding poll
poll-IsFed m net t on chunks h =
    let due = t.started && is_running t.status in
    let whole : Transport × Memory =
      if due then run m net (record t { started = false }) else (t, m) in
    streamed_way t net.recvs t.cancelled t.streaming due m (pump_stream m net t) whole on
      (unread t t net.recvs refl h) (pump_stream-IsFed m net t chunks h)

pump_stream-TakesAll :
    (m : Memory) (net : Net) (t : Transport) → TakesAll t net.recvs (pump_stream m net t).0
unfolding TakesAll
pump_stream-TakesAll m net t =
    pump_stream-cases (TakesAll t net.recvs) m net t (pump_from-TakesAll net.recvs m t)
      (pump_from-TakesAll net.recvs (connect_and_send m net t).3 (record t { fd = true }) refl)
      (λ t' lost kept. inl lost)

poll-TakesAll :
    (m : Memory) (net : Net) (t : Transport)
    → t.streaming ≡ true
    → t.cancelled ≡ false
    → t.started ≡ true
    → t.status ≡ running
    → TakesAll t net.recvs (poll m net t).0
unfolding poll
poll-TakesAll m net t on live begun under_way =
    let P = λ (o : Transport × Memory). TakesAll t net.recvs o.0 in
    if-both P t.cancelled _ _ (λ e. absurd (ground (arith, e, live)))
      (λ _.
        if-both P t.streaming _ _
          (λ _.
            if-both P (t.started && is_running t.status) _ _ (λ _. pump_stream-TakesAll m net t)
              (λ e. absurd (ground (arith, e, begun, under_way))))
          (λ e. absurd (ground (arith, e, on))))

-- What a poll and a drain after it have of the reads that the socket offers: all that the stream is to
-- take, or, when the stream has failed, those of the first reads.
pub IsTaken : Transport → List Recv → Transport → Bytes → Type 0
IsTaken t rs p whole =
    ((p.status ≡ failed) × (reads : ℕ) × (whole ≡ t.data' ++ bytes_of (take reads rs)))
    ⊎ (whole ≡ t.data' ++ offered_to (length t.data') rs)

-- A poll of an endless stream that is under way, the first one that connects or any other, and a drain
-- after it: what is drained and what stays are, in order and nothing twice, what was there and the
-- bytes of all reads up to the first that brings none, as long as the buffer is below the high-water
-- mark; only a stream that has failed, as one for which memory is refused, has no more than those of
-- the first reads. With chunks of at most 8 KB the buffer never holds more than a chunk above the mark.
pub drain-poll :
    (m : Memory) (net : Net) (t : Transport) (cap : ℕ)
    → t.streaming ≡ true
    → t.cancelled ≡ false
    → t.started ≡ true
    → t.status ≡ running
    → AllChunks net.recvs
    → length t.data' ≤ high_water + chunk_size
    → let p = (poll m net t).0 in
      IsTaken t net.recvs p ((drain p cap).1 ++ (drain p cap).0.data')
      × (length (drain p cap).1 ≤ cap)
      × (length (drain p cap).0.data' ≤ high_water + chunk_size)
unfolding drain IsTaken TakesAll
drain-poll m net t cap on live begun under_way chunks h =
    let f = poll-IsFed m net t on chunks h in
    let held = (poll m net t).0.data' in
    let n = if ltb (length held) cap then length held else cap in
    (
      elim (poll-TakesAll m net t on live begun under_way) [
        | inl lost ↦ inl (lost, f.reads, take-append-drop n held ∙ f.fed)
        | inr all ↦ inr (take-append-drop n held ∙ all)
      ],
      taken held n (ground arith),
      omega (arith, length-drop n held, f.bounded),
    )
  where
    taken : (held : Bytes) (n : ℕ) → n ≤ cap → length (take n held) ≤ cap
    taken held n le = omega (arith, length-take n held)
