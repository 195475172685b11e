-- ===== src/Ot/Sends.antt =====
-- Connecting and sending leave the transaction sound.
use casquinha.Alloc.{malloc}
use casquinha.Transport.{stream_error}
use casquinha.Ot.Slices.{moved-IsSound, alive-IsSound}
use casquinha.Ot.Sound.{line}
use casquinha.Ot.Ends.{fail-IsSound, IsSound, IsAlive}
use casquinha.Ot.Transfer.{pump_send, sent, send_from}
use casquinha.Prelude.{
  inl, inr, length-drop, take-all, ◌∙◌, ap, arith, min, drop, length, take, List, ltb, Bytes, ◌++◌,
  ◌+◌, ◌≡◌, refl, false, [], if-both, some, ◌∷◌, ℕ, suc, zero,
}
use casquinha.Ot.{Provider, Memory, Snd, OtTransport, took, flow, broken, st_sending, st_receiving}

take-min : (n : ℕ) (xs : Bytes) → take n xs ≡ take (min n (length xs)) xs
take-min zero xs = ground arith
take-min (suc n) [] = ground arith
take-min (suc n) (x ∷ xs) =
    let m : min (suc n) (suc (length xs)) ≡ suc (min n (length xs)) = omega arith in
    rw m (ap (λ r. x ∷ r) (take-min n xs))

take-more :
    (a n : ℕ) (xs : Bytes)
    → take a xs ++ take n (drop a xs) ≡ take (a + min n (length (drop a xs))) xs
take-more zero n xs =
    let z : 0 + min n (length xs) ≡ min n (length xs) = omega arith in rw z (take-min n xs)
take-more (suc a) n [] = ground (arith, take-min n [])
take-more (suc a) n (x ∷ xs) =
    let m : suc a + min n (length (drop a xs)) ≡ suc (a + min n (length (drop a xs))) =
      omega arith in
    rw m (ap (λ r. x ∷ r) (take-more a n xs))

-- The endpoint has taken some of the line.
sent-IsAlive :
    (n : ℕ) (t : OtTransport)
    → IsAlive t
    → t.req ≡ some (line t)
    → IsAlive (sent n (drop t.reqoff (line t)) t)
unfolding sent
sent-IsAlive n t h r = record {
  fair = record {
    balanced = h.fair.balanced;
    wired =
        ap (λ w. w ++ take n (drop t.reqoff (line t))) h.fair.wired ∙ take-more t.reqoff n (line t);
    within = omega (arith, h.fair.within, length-drop t.reqoff (line t));
    prepared = inr r;
    kept = h.fair.kept;
  };
  clean = h.clean;
  fd_open = h.fd_open;
  status_running = h.status_running;
  not_cancelled = h.not_cancelled;
  lossless = h.lossless;
}

-- The line is out.
done_sending-IsSound :
    (t : OtTransport)
    → IsAlive t
    → ltb t.reqoff (length (line t)) ≡ false
    → IsSound (record t { st = st_receiving })
done_sending-IsSound t h e =
    moved-IsSound st_receiving t h refl refl
      (λ _. h.fair.wired ∙ ap (λ n. take n (line t)) all ∙ take-all (line t))
  where
    all : t.reqoff ≡ length (line t)
    all = ground (arith, h.fair.within, e)

still_sending-IsSound : (t : OtTransport) → IsAlive t → t.st ≡ st_sending → IsSound t
still_sending-IsSound t h s =
    alive-IsSound t h (rw s refl) (rw s refl) (λ a. absurd (ground (arith, s)))

send_from-IsSound :
    (ss : List Snd) (l : Bytes) (t : OtTransport)
    → l ≡ line t
    → IsAlive t
    → t.req ≡ some (line t)
    → t.st ≡ st_sending
    → IsSound (send_from ss l t)
unfolding send_from sent
send_from-IsSound ss l t q h r s = rw q (go ss t h r s)
  where
    go :
        (ss : List Snd) (t : OtTransport)
        → IsAlive t
        → t.req ≡ some (line t)
        → t.st ≡ st_sending
        → IsSound (send_from ss (line t) t)
    go [] t h r s =
        if-both IsSound (ltb t.reqoff (length (line t))) _ _ (λ _. still_sending-IsSound t h s)
          (λ e. done_sending-IsSound t h e)
    go (took n ∷ ss) t h r s =
        if-both IsSound (ltb t.reqoff (length (line t))) _ _
          (λ _. go ss (sent n (drop t.reqoff (line t)) t) (sent-IsAlive n t h r) r s)
          (λ e. done_sending-IsSound t h e)
    go (flow ∷ ss) t h r s =
        if-both IsSound (ltb t.reqoff (length (line t))) _ _ (λ _. still_sending-IsSound t h s)
          (λ e. done_sending-IsSound t h e)
    go (broken ∷ ss) t h r s =
        if-both IsSound (ltb t.reqoff (length (line t))) _ _
          (λ _. fail-IsSound t stream_error _ (ground arith) h.fair)
          (λ e. done_sending-IsSound t h e)

pub send-IsSound :
    (m : Memory) (p : Provider) (t : OtTransport)
    → IsAlive t
    → t.st ≡ st_sending
    → IsSound (pump_send m p t).0
unfolding pump_send
send-IsSound m p t h s = elim h.fair.prepared [
  | inr r ↦ rw (r, pump_send) (send_from-IsSound p.sends (line t) t refl h r s)
  | inl (r, z) ↦
      rw (r, pump_send)
        (if-both (λ (o : OtTransport × Memory). IsSound o.0) (malloc m).0 _ _
          (λ _.
            send_from-IsSound p.sends (line t) (record t { req = some (line t); reqoff = 0 }) refl
              (record {
                fair = record {
                  balanced = h.fair.balanced;
                  wired = h.fair.wired ∙ ap (λ n. take n (line t)) z;
                  within = omega arith;
                  prepared = inr refl;
                  kept = h.fair.kept;
                };
                clean = h.clean;
                fd_open = h.fd_open;
                status_running = h.status_running;
                not_cancelled = h.not_cancelled;
                lossless = h.lossless;
              })
              refl s)
          (λ _. fail-IsSound t stream_error _ (ground arith) h.fair))
]
