-- ===== src/Transport/Reads.antt =====
-- The endless stream: which reads a poll takes.
use casquinha.Transport.Buffer.{append-cases}
use casquinha.Transport.{
  append, broken_pipe, would_block, closed, stream_error, eof, high_water, got, failed, Memory,
  Recv, Transport, fail, pump_from,
}
use casquinha.Prelude.{
  length-append, append-nil, codes, sym, append_assoc, ap, arith, not, Bool-cases, ◌∙◌, inl, ◌||◌,
  inr, if◌then◌else◌, ◌+◌, ◌++◌, if-both, [], ◌⊎◌, length, true, false, leb, ◌∷◌, ◌≡◌, List, Bytes,
  ℕ, refl,
}

-- The bytes that a stream with `n` bytes in its buffer is to take: those of the reads that bring some,
-- up to the first that brings none, as long as the buffer is below the high-water mark.
pub offered_to : ℕ → List Recv → Bytes
offered_to n [] = []
offered_to n (got b ∷ rs) =
    let more = offered_to (n + length b) rs in if leb high_water n then [] else b ++ more
offered_to n (eof ∷ rs) = []
offered_to n (would_block ∷ rs) = []
offered_to n (broken_pipe ∷ rs) = []

-- It has taken them, or it has failed.
unfoldable pub TakesAll : Transport → List Recv → Transport → Type 0
TakesAll t rs t' = (t'.status ≡ failed) ⊎ (t'.data' ≡ t.data' ++ offered_to (length t.data') rs)

-- A poll that takes nothing where nothing is offered.
takes_none :
    (t t' : Transport) (rs : List Recv)
    → t'.data' ≡ t.data'
    → offered_to (length t.data') rs ≡ []
    → TakesAll t rs t'
unfolding TakesAll
takes_none t t' rs e none_on =
    inr (e ∙ sym (append-nil t.data') ∙ ap (λ b. t.data' ++ b) (sym none_on))

pump_from-failed :
    (rs : List Recv) (m : Memory) (t : Transport)
    → t.fd ≡ false
    → t.status ≡ failed
    → (pump_from rs m t).0.status ≡ failed
unfolding pump_from fail
pump_from-failed [] m t e f =
    if-both (λ (o : Transport × Memory). o.0.status ≡ failed)
      (leb high_water (length t.data') || t.fd) _ _ (λ _. f) (λ _. refl)
pump_from-failed (r ∷ rs) m t e f = elim (Bool-cases (leb high_water (length t.data'))) [
  | inl full ↦ rw (full, pump_from) f
  | inr room ↦ let shut : not t.fd ≡ true = ap not e in rw (room, pump_from) (rw shut refl)
]

-- A read that brings no bytes, whatever comes of it.
quiet-TakesAll :
    (t : Transport) (rs : List Recv) (m : Memory) (t' : Transport)
    → offered_to (length t.data') rs ≡ []
    → t'.data' ≡ t.data'
    → let out : Transport × Memory =
        if leb high_water (length t.data')
        then (t, m)
        else if not t.fd
        then (fail t stream_error (codes "Read failed from"), m)
        else (t', m) in
      TakesAll t rs out.0
unfolding fail
quiet-TakesAll t rs m t' none_on e =
    if-both (λ (o : Transport × Memory). TakesAll t rs o.0) (leb high_water (length t.data')) _ _
      (λ _. takes_none t t rs refl none_on)
      (λ _.
        if-both (λ (o : Transport × Memory). TakesAll t rs o.0) (not t.fd) _ _
          (λ _. takes_none t _ rs refl none_on) (λ _. takes_none t t' rs e none_on))

got-TakesAll :
    (t t' : Transport) (b : Bytes) (rs : List Recv) (c : ℕ)
    → TakesAll (record t { data' = t.data' ++ b; cap = c }) rs t'
    → (t'.status ≡ failed)
      ⊎ (t'.data' ≡ t.data' ++ (b ++ offered_to (length t.data' + length b) rs))
unfolding TakesAll
got-TakesAll t t' b rs c (inl lost) = inl lost
got-TakesAll t t' b rs c (inr e) = inr (
    e
    ∙ append_assoc t.data' b (offered_to (length (t.data' ++ b)) rs)
    ∙ ap (λ n. t.data' ++ (b ++ offered_to n rs)) (length-append t.data' b))

pub pump_from-TakesAll :
    (rs : List Recv) (m : Memory) (t : Transport) → t.fd ≡ true → TakesAll t rs (pump_from rs m t).0
unfolding pump_from offered_to TakesAll fail
pump_from-TakesAll [] m t e =
    if-both (λ (o : Transport × Memory). TakesAll t [] o.0)
      (leb high_water (length t.data') || t.fd) _ _ (λ _. takes_none t t [] refl refl)
      (λ k. absurd (ground (arith, e, k)))
pump_from-TakesAll (eof ∷ rs) m t e = quiet-TakesAll t (eof ∷ rs) m _ refl refl
pump_from-TakesAll (would_block ∷ rs) m t e = quiet-TakesAll t (would_block ∷ rs) m _ refl refl
pump_from-TakesAll (broken_pipe ∷ rs) m t e =
    quiet-TakesAll t (broken_pipe ∷ rs) m (fail (closed t) stream_error (codes "Read failed from"))
      refl refl
pump_from-TakesAll (got b ∷ rs) m t e = elim (Bool-cases (leb high_water (length t.data'))) [
  | inl full ↦ rw (full, pump_from) (inr (sym (append-nil t.data')))
  | inr room ↦ elim (append-cases m t b) [
    | inl refused ↦
        let shut : not t.fd ≡ false = ap not e in
        inl (
          rw (room, pump_from)
            (rw (shut, refused)
              (pump_from-failed rs (append m t b).1
                (fail (closed t) stream_error (codes "Out of memory reading from")) refl refl)))
    | inr (c, grown, fits) ↦
        let open_ : not t.fd ≡ false = ap not e in
        rw (room, pump_from)
          (rw (open_, grown)
            (got-TakesAll t
              (pump_from rs (append m t b).1 (record t { data' = t.data' ++ b; cap = c })).0 b rs c
              (pump_from-TakesAll rs (append m t b).1 (record t { data' = t.data' ++ b; cap = c })
                e)))
  ]
]
