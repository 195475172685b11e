-- ===== src/Audio/Ends.antt =====
-- The feeder and the interrupt keep the streams whole.
use casquinha.Prelude.{
  subst, true, ◌⊎◌, ◌∷◌, ℕ, zero, suc, ◌+◌, ◌-◌, ◌≡◌, ◌≤◌, ◌<◌, refl, sym, ap, ◌∙◌, arith, Bool,
  false, some, ◌++◌, [], Bytes, length, append_assoc, min, replicate, ◌==◌, Bool-cases, inl, inr,
  length-append,
}
use casquinha.Prelude.Int.{pos_part}
use casquinha.DecRing.Wrap.{wrapped, window_two, length-wrapped}
use casquinha.DecRing.Fifo.{backlog-played, IsRing, pending, audible, put-pending, played-audible}
use casquinha.DecRing.{Ring, add32, backlog, claim, put}
use casquinha.Transport.{Transport, drain}
use casquinha.Transport.Buffer.{drain_lem}
use casquinha.Audio.{audio_chunk, feed, drain_stream, Output, trim, refill, double_back}

-- What the feeder leaves of the ring and the stream.
pub record IsFeed (r : Ring) (t : Transport) (r' : Ring) (t' : Transport) : Type 0 where
  pub ring_ok : IsRing r'
  pub moved : pending r' ++ t'.data' ≡ pending r ++ t.data'

feed-IsFeed :
    (fuel : ℕ) (r : Ring) (t : Transport) (rx : ℕ)
    → IsRing r
    → length t.data' < fuel
    → (out : Ring × Transport × ℕ) × (feed fuel r t rx ≡ some out) × IsFeed r t out.0 out.1
unfolding feed
feed-IsFeed zero r t rx h enough = absurd (omega arith)
feed-IsFeed (suc fuel) r t rx h enough =
    let contig = (claim r).1 in
    let d = drain t contig in
    let split = drain_lem t contig in
    let size = ap length split.0 in
    let parts = length-append d.1 d.0.data' in
    let fed = put-pending r d.1 h (omega (arith, split.1)) in
    elim (Bool-cases (contig == 0)) [
      | inl full ↦ ((r, t, rx), rw (full, feed) refl, record { ring_ok = h; moved = refl })
      | inr room ↦ elim (Bool-cases (length d.1 == 0)) [
        | inl dry ↦ (
          (r, d.0, rx),
          rw (room, feed) (rw dry refl),
          record { ring_ok = h; moved = kept d.1 d.0.data' (ground arith) split.0 },
        )
        | inr some_ ↦
            let rest =
              feed-IsFeed fuel (put r d.1) d.0 (add32 rx (length d.1)) fed.1
                (smaller (length d.1) (length d.0.data') some_ (omega (arith, size, parts))) in
            (
              rest.0,
              rw (room, feed) (rw some_ rest.1),
              record {
                ring_ok = rest.2.ring_ok;
                moved =
                    rest.2.moved
                    ∙ ap (λ p. p ++ d.0.data') fed.0
                    ∙ append_assoc (pending r) d.1 d.0.data'
                    ∙ ap (λ b. pending r ++ b) split.0;
              },
            )
      ]
    ]
  where
    kept :
        (b left : Bytes)
        → length b ≡ 0
        → b ++ left ≡ t.data'
        → pending r ++ left ≡ pending r ++ t.data'
    kept [] left e split = ap (λ d. pending r ++ d) split
    kept (c ∷ cs) left e split = absurd (omega arith)

    smaller : (n left : ℕ) → (n == 0) ≡ false → n + left ≡ length t.data' → left < fuel
    smaller n left some_ e = ground arith

-- The feeder comes to an end, keeps the ring in order, and between the stream's buffer and the
-- decoder no byte is lost, repeated or reordered: what waits for the decoder and then for the feeder is
-- the same before and after.
pub drain_stream-IsFeed :
    (r : Ring) (t : Transport) (rx_total : ℕ)
    → IsRing r
    → (out : Ring × Transport × ℕ) × (drain_stream r t rx_total ≡ some out) × IsFeed r t out.0 out.1
unfolding drain_stream
drain_stream-IsFeed r t rx_total h = feed-IsFeed (suc (length t.data')) r t rx_total h (omega arith)

-- How many of the bytes that are left a refill plays: a whole chunk when there is one, else all of them
-- when the stream is dead, else none.
pub IsRefillSize : Bool → ℕ → ℕ → Type 0
IsRefillSize stream avail n =
    ((audio_chunk ≤ avail) × (n ≡ audio_chunk))
    ⊎ ((avail < audio_chunk) × (stream ≡ false) × (n ≡ avail))
    ⊎ ((avail < audio_chunk) × (stream ≡ true) × (n ≡ 0))

-- What the interrupt plays: some bytes are skipped, the next fill the front of the hardware buffer, and
-- the rest of it is silence.
pub record IsRefill (stream : Bool) (o o' : Output) (buffer : Bytes) : Type 0 where
  pub ring_ok : IsRing o'.ring
  pub skipped : Bytes
  pub played : Bytes
  pub skipped_is : length skipped ≡ min (pos_part o.skip) (backlog o.ring)
  pub audible_is : audible o.ring ≡ skipped ++ played ++ audible o'.ring
  pub buffer_is : buffer ≡ played ++ replicate (audio_chunk - length played) 0
  pub played_is : IsRefillSize stream (backlog o.ring - length skipped) (length played)

refill-IsRefillSize : (stream : Bool) (avail : ℕ) → IsRefillSize stream avail (refill stream avail)
unfolding refill IsRefillSize
refill-IsRefillSize true avail = ground arith
refill-IsRefillSize false avail = ground arith

refill_le : (stream : Bool) (avail : ℕ) → refill stream avail ≤ avail
unfolding refill
refill_le stream avail = ground arith

trim_lem :
    (o : Output)
    → IsRing o.ring
    → (s : Bytes) × (length s ≡ min (pos_part o.skip) (backlog o.ring))
      × (audible o.ring ≡ s ++ audible (trim o).ring)
      × IsRing (trim o).ring
      × (backlog (trim o).ring ≡ backlog o.ring - length s)
unfolding trim
trim_lem o h =
    let s = min (pos_part o.skip) (backlog o.ring) in
    let p = played-audible o.ring s h (omega arith) in
    let left = backlog-played o.ring s h (omega arith) in
    let size = length-wrapped o.ring.pcm o.ring.pcm_rd s in
    elim (Bool-cases (pos_part o.skip == 0)) [
      | inl still ↦
          let none_left : s ≡ 0 = ground arith in
          rw (still, trim) ([], ground arith, refl, h, omega arith)
      | inr jump ↦
          rw (jump, trim)
            (
              wrapped o.ring.pcm o.ring.pcm_rd s,
              size,
              p.0,
              p.1,
              left.0 ∙ ap (λ n. backlog o.ring - n) (sym size),
            )
    ]

-- The interrupt skips what the trim asks for and no more than there is, then plays the next whole
-- chunk, or, when less is left, the tail of a dead stream and nothing of a live one, and fills up with
-- silence; what stays audible is
-- all the rest, in order, and the ring stays in order, also across its end.
pub double_back-IsRefill :
    (stream : Bool) (o : Output)
    → IsRing o.ring
    → IsRefill stream o (double_back stream o).0 (double_back stream o).1
unfolding double_back
double_back-IsRefill stream o h =
    let o₁ : Output = record o { fires = add32 o.fires 1 } in
    let t = trim_lem o₁ h in
    let r = (trim o₁).ring in
    let taken = refill stream (backlog r) in
    let le = refill_le stream (backlog r) in
    let p = played-audible r taken t.3 le in
    let fits = (backlog-played r taken t.3 le).1 in
    let size = length-wrapped r.pcm r.pcm_rd taken in
    record {
      ring_ok = p.1;
      skipped = t.0;
      played = wrapped r.pcm r.pcm_rd taken;
      skipped_is = t.1;
      audible_is =
          t.2
          ∙ ap (λ a. t.0 ++ a) p.0
          ∙ sym (
              append_assoc t.0 (wrapped r.pcm r.pcm_rd taken)
                (audible (record r { pcm_rd = add32 r.pcm_rd taken })));
      buffer_is =
          ap (λ w. w ++ replicate (audio_chunk - taken) 0)
            (window_two r.pcm r.pcm_rd taken t.3.pcm_cursors.some_room (omega arith))
          ∙ ap (λ n. wrapped r.pcm r.pcm_rd taken ++ replicate (audio_chunk - n) 0) (sym size);
      played_is =
          subst (IsRefillSize stream (backlog o.ring - length t.0))
            (sym (size ∙ ap (refill stream) t.4))
            (refill-IsRefillSize stream (backlog o.ring - length t.0));
    }
