-- ===== src/DecRing/Pump.antt =====
-- The decode pump: it comes to an end, keeps both rings in order and takes bytes only from the front
-- of the stage.
use casquinha.DecRing.Round.{IsDecoder, IsLoop, Keeps, Good, Keeps-trans, turn-Good}
use casquinha.DecRing.Cursors.{between}
use casquinha.Prelude.{
  ◌++◌, ap, subst, some, sym, min, [], ◌∷◌, zero, suc, ℕ, ◌+◌, ◌-◌, ◌≡◌, refl, ◌∙◌, ◌≤◌, ◌<◌, arith,
  Bytes, length, drop, Bool, length-drop,
}
use casquinha.DecRing.Fifo.{top_up-pending, played-audible, IsRing, pending}
use casquinha.DecRing.{
  top_up, compact, run, pump, interrupt, stage_size, sub32, backlog, turn, Ring, Env, Loop, Turn,
  stop, again,
}

interrupt-Keeps :
    (e : Env) (l : Loop e.World)
    → IsLoop l
    → Keeps l (interrupt e l) × ((interrupt e l).used ≡ l.used)
unfolding interrupt pending
interrupt-Keeps e l h =
    let n = min (e.played l.world).0 (backlog l.ring) in
    let ok = played-audible l.ring n h.ring_ok (omega arith) in
    (
      record {
        stage = refl;
        pending = refl;
        used = omega arith;
        loop = record { ring_ok = ok.1; used_le = h.used_le };
      },
      refl,
    )

-- The loop ends within a round for each byte that is left of the stage and one more.
run-Keeps :
    (e : Env) (fuel : ℕ) (l : Loop e.World)
    → IsDecoder e
    → IsLoop l
    → length l.ring.stage - l.used < fuel
    → (l' : Loop e.World) × (run e fuel l ≡ some l') × Keeps l l'
unfolding run Good
run-Keeps e zero l dec h enough = absurd (omega arith)
run-Keeps e (suc fuel) l dec h enough =
    let k = (interrupt-Keeps e l h).0 in
    go (turn e (interrupt e l)) refl k (turn-Good e (interrupt e l) dec k.loop)
      (λ l' h' le. run-Keeps e fuel l' dec h' le)
  where
    go :
        (t : Turn e.World)
        → turn e (interrupt e l) ≡ t
        → Keeps l (interrupt e l)
        → Good (interrupt e l) (turn e (interrupt e l))
        → ((l' : Loop e.World)
            → IsLoop l'
            → length l'.ring.stage - l'.used < fuel
            → (l'' : Loop e.World) × (run e fuel l' ≡ some l'') × Keeps l' l'')
        → (l' : Loop e.World) × (run e (suc fuel) l ≡ some l') × Keeps l l'
    go (stop l') q k g ih = (
      l',
      rw (q, run) refl,
      Keeps-trans l (interrupt e l) l' k (subst (Good (interrupt e l)) q g),
    )
    go (again l') q k g ih =
        let good : Keeps (interrupt e l) l' × ((interrupt e l).used < l'.used) =
          subst (Good (interrupt e l)) q g in
        let k' = Keeps-trans l (interrupt e l) l' k good.0 in
        let left = ap length k'.stage in
        let within = k'.loop.used_le in
        let same = (interrupt-Keeps e l h).1 in
        let rest = ih l' k'.loop (omega (arith, good.1)) in
        (rest.0, rw (q, run) rest.1, Keeps-trans l l' rest.0 k' rest.2)

-- What a pass of the pump leaves of a ring.
pub record IsPumped (r r' : Ring) : Type 0 where
  pub ring_ok : IsRing r'
  pub taken : ℕ
  pub taken_le : taken ≤ min (length r.stage + sub32 r.comp_wr r.comp_rd) stage_size
  pub pending_is : pending r' ≡ drop taken (pending r)

drop-append : (n : ℕ) (xs ys : Bytes) → n ≤ length xs → drop n (xs ++ ys) ≡ drop n xs ++ ys
drop-append zero xs ys h = refl
drop-append (suc n) [] ys h = absurd (omega arith)
drop-append (suc n) (x ∷ xs) ys h = drop-append n xs ys (omega arith)

compact-IsPumped :
    {W : Type 0} (r r' : Ring) (l : Loop W)
    → pending r' ≡ pending r
    → length r'.stage ≡ min (length r.stage + sub32 r.comp_wr r.comp_rd) stage_size
    → pending l.ring ≡ pending r'
    → length l.ring.stage ≡ length r'.stage
    → IsLoop l
    → IsPumped r (compact l).1
unfolding compact pending
compact-IsPumped r r' l same len kept stage h = record {
  ring_ok = record {
    comp_cursors = h.ring_ok.comp_cursors;
    pcm_cursors = h.ring_ok.pcm_cursors;
    staged = omega (arith, h.ring_ok.staged, length-drop l.used l.ring.stage);
  };
  taken = l.used;
  taken_le = omega (arith, h.used_le);
  pending_is =
      sym (
        drop-append l.used l.ring.stage (between l.ring.comp l.ring.comp_wr l.ring.comp_rd)
          h.used_le)
      ∙ ap (drop l.used) (kept ∙ same);
}

-- With a decoder that keeps its promises, whatever it makes of the bytes and however much the
-- interrupt plays between the rounds, a pass of the pump comes to an end; both rings stay in order,
-- each with its cursors at most a ring apart; and what then waits for the decoder is what waited
-- before less some bytes from the front, all of them staged.
pub pump-IsPumped :
    (e : Env) (w : e.World) (r : Ring)
    → IsDecoder e
    → IsRing r
    → (out : Bool × Ring × e.World) × (pump e w r ≡ some out) × IsPumped r out.1
unfolding pump
pump-IsPumped e w r dec h =
    let t = top_up-pending r h in
    let start : Loop e.World = record {
      ring = (top_up r).0;
      used = 0;
      progress = (top_up r).1;
      world = w;
    } in
    let ran =
      run-Keeps e (suc (length (top_up r).0.stage)) start dec
        (record { ring_ok = t.1; used_le = omega arith }) (omega arith) in
    (
      compact ran.0,
      rw (ran.1, pump) refl,
      compact-IsPumped r (top_up r).0 ran.0 t.0 t.2 ran.2.pending (ap length ran.2.stage)
          ran.2.loop,
    )
