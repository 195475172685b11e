-- ===== src/Transport/Stream.antt =====
-- The endless stream: between polls and drains no byte is lost, and the buffer stays bounded.
use casquinha.Prelude.{
  codes, codes, ◌||◌, ℕ, suc, ◌+◌, ◌≡◌, ◌≤◌, refl, sym, ap, subst, ◌∙◌, arith, Bool, true, false,
  not, Option, none, some, List, [], ◌∷◌, ◌++◌, Bytes, append_assoc, append-nil, take,
  length-append, inl, inr, Bool-cases, if◌then◌else◌, length, leb,
}
use casquinha.Alloc.{Memory}
use casquinha.Transport.{
  Transport, done, Recv, got, eof, would_block, broken_pipe, chunk_size, high_water, stream_error,
  fail, closed, append, pump_from,
}
use casquinha.Transport.Buffer.{append-cases}

-- The bytes of some reads.
abbrev pub bytes_of : List Recv → Bytes
bytes_of [] = []
bytes_of (got b ∷ rs) = b ++ bytes_of rs
bytes_of (eof ∷ rs) = bytes_of rs
bytes_of (would_block ∷ rs) = bytes_of rs
bytes_of (broken_pipe ∷ rs) = bytes_of rs

-- No read returns more than a chunk.
abbrev pub AllChunks : List Recv → Type 0
AllChunks [] = Unit
AllChunks (got b ∷ rs) = (length b ≤ chunk_size) × AllChunks rs
AllChunks (eof ∷ rs) = AllChunks rs
AllChunks (would_block ∷ rs) = AllChunks rs
AllChunks (broken_pipe ∷ rs) = AllChunks rs

-- After a poll the buffer holds what it held and the bytes of the first reads that were offered, and
-- not much more than the high-water mark.
pub record IsFed (t : Transport) (rs : List Recv) (t' : Transport) : Type 0 where
  pub reads : ℕ
  pub fed : t'.data' ≡ t.data' ++ bytes_of (take reads rs)
  pub bounded : length t'.data' ≤ high_water + chunk_size

-- Nothing was read.
pub unread :
    (t t' : Transport) (rs : List Recv)
    → t'.data' ≡ t.data'
    → length t.data' ≤ high_water + chunk_size
    → IsFed t rs t'
unread t t' rs e h = record { reads = 0; fed = e ∙ sym (append-nil t.data'); bounded = rw e h }

three_ways :
    (t : Transport) (rs : List Recv) (a b : Bool) (x y z : Transport × Memory)
    → IsFed t rs x.0
    → IsFed t rs y.0
    → (a ≡ false → IsFed t rs z.0)
    → IsFed t rs (if a then x else if b then y else z).0
three_ways t rs true b x y z p q r = p
three_ways t rs false true x y z p q r = q
three_ways t rs false false x y z p q r = r refl

-- A read that brings no bytes.
no_bytes :
    (t : Transport) (rs : List Recv) (full : Bool) (m : Memory) (t' : Transport)
    → t'.data' ≡ t.data'
    → length t.data' ≤ high_water + chunk_size
    → let out : Transport × Memory =
        if full
        then (t, m)
        else if not t.fd
        then (fail t stream_error (codes "Read failed from"), m)
        else (t', m) in
      IsFed t rs out.0
unfolding fail
no_bytes t rs full m t' e h =
    three_ways t rs full (not t.fd) (t, m) (fail t stream_error (codes "Read failed from"), m)
      (t', m) (unread t t rs refl h) (unread t _ rs refl h) (λ room. unread t t' rs e h)

-- One read more than those of the rest.
got-IsFed :
    (t t' : Transport) (b : Bytes) (rs : List Recv) (c : ℕ)
    → IsFed (record t { data' = t.data' ++ b; cap = c }) rs t'
    → IsFed t (got b ∷ rs) t'
got-IsFed t t' b rs c h = record {
  reads = suc h.reads;
  fed = h.fed ∙ append_assoc t.data' b (bytes_of (take h.reads rs));
  bounded = h.bounded;
}

-- A closed stream reads nothing more.
pump_from-shut :
    (rs : List Recv) (m : Memory) (t : Transport)
    → t.fd ≡ false
    → (pump_from rs m t).0.data' ≡ t.data'
unfolding pump_from fail
pump_from-shut [] m t e = elim (Bool-cases (leb high_water (length t.data') || t.fd)) [
  | inl stop ↦ rw (stop, pump_from) refl
  | inr lost ↦ rw (lost, pump_from) refl
]
pump_from-shut (r ∷ rs) m t e = elim (Bool-cases (leb high_water (length t.data'))) [
  | inl full ↦ rw (full, pump_from) refl
  | inr room ↦ let shut : not t.fd ≡ true = ap not e in rw (room, pump_from) (rw shut refl)
]

pub pump_from-IsFed :
    (rs : List Recv) (m : Memory) (t : Transport)
    → AllChunks rs
    → length t.data' ≤ high_water + chunk_size
    → IsFed t rs (pump_from rs m t).0
unfolding pump_from fail
pump_from-IsFed [] m t chunks h = elim (Bool-cases (leb high_water (length t.data') || t.fd)) [
  | inl stop ↦ rw (stop, pump_from) (unread t t [] refl h)
  | inr lost ↦ rw (lost, pump_from) (unread t _ [] refl h)
]
pump_from-IsFed (eof ∷ rs) m t chunks h =
    no_bytes t (eof ∷ rs) (leb high_water (length t.data')) m (record (closed t) { status = done })
      refl h
pump_from-IsFed (would_block ∷ rs) m t chunks h =
    no_bytes t (would_block ∷ rs) (leb high_water (length t.data')) m (t) refl h
pump_from-IsFed (broken_pipe ∷ rs) m t chunks h =
    no_bytes t (broken_pipe ∷ rs) (leb high_water (length t.data')) m
      (fail (closed t) stream_error (codes "Read failed from")) refl h
pump_from-IsFed (got b ∷ rs) m t chunks h =
    three_ways t (got b ∷ rs) (leb high_water (length t.data')) (not t.fd) (t, m)
      (fail t stream_error (codes "Read failed from"), m) handled (unread t t (got b ∷ rs) refl h)
      (unread t _ (got b ∷ rs) refl h)
      (next (λ c fits.
        pump_from-IsFed rs (append m t b).1 (record t { data' = t.data' ++ b; cap = c }) chunks.1
          fits))
  where
    lost : Transport
    lost = fail (closed t) stream_error (codes "Out of memory reading from")

    after : Option Transport → Transport × Memory
    after none = pump_from rs (append m t b).1 lost
    after (some t') = pump_from rs (append m t b).1 t'

    handled : Transport × Memory
    handled = elim (append m t b).0 [
      | none ↦ pump_from rs (append m t b).1 lost
      | some t' ↦ pump_from rs (append m t b).1 t'
    ]

    same :
        (o : Option Transport)
        → (elim o as (λ _. Transport × Memory) [
          | none ↦ pump_from rs (append m t b).1 lost
          | some t' ↦ pump_from rs (append m t b).1 t'
        ])
          ≡ after o
    same none = refl
    same (some t') = refl

    handled-after : (o : Option Transport) → (append m t b).0 ≡ o → handled ≡ after o
    handled-after o e =
        ap
          (λ p. elim p as (λ _. Transport × Memory) [
            | none ↦ pump_from rs (append m t b).1 lost
            | some t' ↦ pump_from rs (append m t b).1 t'
          ])
          e
        ∙ same o

    next :
        ((c : ℕ)
          → length (t.data' ++ b) ≤ high_water + chunk_size
          → IsFed
              (record t { data' = t.data' ++ b; cap = c })
              rs
              (pump_from rs (append m t b).1 (record t { data' = t.data' ++ b; cap = c })).0)
        → leb high_water (length t.data') ≡ false
        → IsFed t (got b ∷ rs) handled.0
    next ih room = elim (append-cases m t b) [
      | inl refused ↦
          subst (λ (o : Transport × Memory). IsFed t (got b ∷ rs) o.0)
            (sym (handled-after none refused))
            (unread t _ (got b ∷ rs) (pump_from-shut rs (append m t b).1 lost refl) h)
      | inr (c, grown, fits) ↦
          subst (λ (o : Transport × Memory). IsFed t (got b ∷ rs) o.0)
            (sym (handled-after (some _) grown))
            (got-IsFed t _ b rs c (ih c (rw (length-append t.data' b) (ground (arith, chunks.0)))))
    ]
