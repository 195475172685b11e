-- ===== src/DecRing/Fifo.antt =====
-- The stream through the ring: no compressed byte is lost, repeated or reordered between the
-- producer's commit and the decoder, and no PCM byte between the decoder and the interrupt.
use native.Mathlib.Nat.{mod-lt}
use casquinha.Prelude.{
  refl, Bool, ltb, inr, subst, inl, length-take, Bool-cases, length-append, true, drop, take, false,
  ◌*◌, ◌-◌, ◌==◌, if◌then◌else◌, window, min, ℕ, ◌+◌, ◌%◌, ◌≡◌, sym, ap, ◌∙◌, ◌≤◌, arith, Bytes,
  length, ◌++◌, append_assoc,
}
use casquinha.DecRing.Wrap.{length-wrapped, window_two, write, length-write}
use casquinha.DecRing.Cursors.{
  sub32-shrink, between-grow_two, IsCursors-shrink, between-shrink, IsCursors, between,
  IsCursors-grow, between-grow,
}
use casquinha.DecRing.{
  pos_part, wrapped, Decoded, add32, before_wrap, backlog, top_up, emit, Ring, sub32, stage_size,
  space, claim, commit, put,
}

-- Both rings are in order, and the stage holds what is staged.
pub record IsRing (r : Ring) : Type 0 where
  pub comp_cursors : IsCursors r.comp r.comp_wr r.comp_rd
  pub pcm_cursors : IsCursors r.pcm r.pcm_wr r.pcm_rd
  pub staged : length r.stage ≤ stage_size

-- The compressed bytes that wait for the decoder, oldest first, and the PCM bytes that wait for the
-- interrupt.
unfoldable pub pending : Ring → Bytes
pending r = r.stage ++ between r.comp r.comp_wr r.comp_rd

unfoldable pub audible : Ring → Bytes
audible r = between r.pcm r.pcm_wr r.pcm_rd

space_lem : (r : Ring) → IsRing r → space r + sub32 r.comp_wr r.comp_rd ≡ length r.comp
unfolding space
space_lem r h = omega (arith, h.comp_cursors.fits, h.comp_cursors.word)

claim_lem :
    (r : Ring)
    → IsRing r
    → (sub32 r.comp_wr r.comp_rd + (claim r).1 ≤ length r.comp)
      × (r.comp_wr % length r.comp + (claim r).1 ≤ length r.comp)
unfolding claim
claim_lem r h =
    let lt = mod-lt r.comp_wr h.comp_cursors.some_room in
    let total = space_lem r h in (ground arith, ground arith)

-- Of a ring in order, bytes that are written into a claimed run and committed join the waiting bytes at the end, and the ring
-- stays in order.
pub put-pending :
    (r : Ring) (bytes : Bytes)
    → IsRing r
    → length bytes ≤ (claim r).1
    → (pending (put r bytes) ≡ pending r ++ bytes) × IsRing (put r bytes)
unfolding put commit claim pending
put-pending r bytes h le =
    let room = claim_lem r h in
    let c = h.comp_cursors in
    (
      ap (λ t. r.stage ++ t)
            (between-grow r.comp r.comp_wr r.comp_rd bytes c (omega (arith, room.0))
              (omega (arith, room.1)))
          ∙ sym (append_assoc r.stage (between r.comp r.comp_wr r.comp_rd) bytes),
      record {
        comp_cursors =
            IsCursors-grow r.comp (write r.comp (r.comp_wr % length r.comp) bytes) r.comp_wr
              r.comp_rd (length bytes) c (length-write r.comp (r.comp_wr % length r.comp) bytes)
              (omega (arith, room.0));
        pcm_cursors = h.pcm_cursors;
        staged = h.staged;
      },
    )

top_up-moves :
    (r : Ring) (taken : ℕ)
    → IsRing r
    → taken ≤ sub32 r.comp_wr r.comp_rd
    → length r.stage + taken ≤ stage_size
    → let rd = r.comp_rd % length r.comp in
      let first = before_wrap (length r.comp) rd taken in
      let after : Ring = record r {
        stage = r.stage ++ window r.comp 0 rd first ++ window r.comp 0 0 (taken - first);
        comp_rd = add32 r.comp_rd taken;
      } in
      (pending after ≡ pending r) × IsRing after × (length after.stage ≡ length r.stage + taken)
unfolding pending
top_up-moves r taken h le room =
    let c = h.comp_cursors in
    let rd = r.comp_rd % length r.comp in
    let first = before_wrap (length r.comp) rd taken in
    let after : Bytes = between r.comp r.comp_wr (add32 r.comp_rd taken) in
    let front = window r.comp 0 rd first in
    let back = window r.comp 0 0 (taken - first) in
    let read : r.stage ++ front ++ back ≡ r.stage ++ wrapped r.comp r.comp_rd taken =
      append_assoc r.stage front back
      ∙ ap (λ t. r.stage ++ t)
          (window_two r.comp r.comp_rd taken c.some_room (omega (arith, c.fits))) in
    let len : length (r.stage ++ front ++ back) ≡ length r.stage + taken =
      ap length read
      ∙ length-append r.stage (wrapped r.comp r.comp_rd taken)
      ∙ ap (λ n. length r.stage + n) (length-wrapped r.comp r.comp_rd taken) in
    (
      ap (λ s. s ++ after) read
          ∙ append_assoc r.stage (wrapped r.comp r.comp_rd taken) after
          ∙ ap (λ t. r.stage ++ t) (sym (between-shrink r.comp r.comp_wr r.comp_rd taken c le)),
      record {
        comp_cursors = IsCursors-shrink r.comp r.comp_wr r.comp_rd taken c le;
        pcm_cursors = h.pcm_cursors;
        staged = omega (arith, len);
      },
      len,
    )

-- Topping up the stage of a ring in order moves bytes across the ring's end without changing what waits, keeps the ring
-- in order, and leaves the ring or the stage exhausted: the stage grows by all that waits or is full.
pub top_up-pending :
    (r : Ring)
    → IsRing r
    → (pending (top_up r).0 ≡ pending r)
      × IsRing (top_up r).0
      × (length (top_up r).0.stage ≡ min (length r.stage + sub32 r.comp_wr r.comp_rd) stage_size)
unfolding top_up
top_up-pending r h =
    let avail = sub32 r.comp_wr r.comp_rd in
    let room = stage_size - length r.stage in
    let fits = h.staged in
    go (if ltb avail room then avail else room) (ground arith) (ground arith) (ground arith)
  where
    go :
        (taken : ℕ)
        → taken ≤ sub32 r.comp_wr r.comp_rd
        → length r.stage + taken ≤ stage_size
        → length r.stage + taken ≡ min (length r.stage + sub32 r.comp_wr r.comp_rd) stage_size
        → let rd = r.comp_rd % length r.comp in
          let first = before_wrap (length r.comp) rd taken in
          let out : Ring × Bool = if taken == 0 then (r, false) else (
            record r {
              stage = r.stage ++ window r.comp 0 rd first ++ window r.comp 0 0 (taken - first);
              comp_rd = add32 r.comp_rd taken;
            },
            true,
          ) in
          (pending out.0 ≡ pending r)
          × IsRing out.0
          × (length out.0.stage ≡ min (length r.stage + sub32 r.comp_wr r.comp_rd) stage_size)
    go taken le room total = elim (Bool-cases (taken == 0)) [
      | inl nothing ↦ rw nothing (refl, h, ground arith)
      | inr some_ ↦ rw some_ (let m = top_up-moves r taken h le room in (m.0, m.1, m.2 ∙ total))
    ]

-- The interrupt takes bytes from the front of what is audible.
pub played-audible :
    (r : Ring) (n : ℕ)
    → IsRing r
    → n ≤ backlog r
    → let after : Ring = record r { pcm_rd = add32 r.pcm_rd n } in
      (audible r ≡ wrapped r.pcm r.pcm_rd n ++ audible after) × IsRing after
unfolding audible backlog
played-audible r n h le = (
  between-shrink r.pcm r.pcm_wr r.pcm_rd n h.pcm_cursors le,
  record {
    comp_cursors = h.comp_cursors;
    pcm_cursors = IsCursors-shrink r.pcm r.pcm_wr r.pcm_rd n h.pcm_cursors le;
    staged = h.staged;
  },
)

pub backlog-played :
    (r : Ring) (n : ℕ)
    → IsRing r
    → n ≤ backlog r
    → (backlog (record r { pcm_rd = add32 r.pcm_rd n }) ≡ backlog r - n)
      × (backlog r ≤ length r.pcm)
unfolding backlog
backlog-played r n h le =
    let c = h.pcm_cursors in (sub32-shrink r.pcm_wr r.pcm_rd n c.wr_word c.rd_word le, c.fits)

-- A decoded frame for which the PCM ring has room is heard after all that waits, whole and in order,
-- and the ring stays in order.
pub emit-audible :
    (r : Ring) (d : Decoded)
    → IsRing r
    → pos_part d.samples * d.channels * 2 ≤ length d.sound
    → backlog r + pos_part d.samples * d.channels * 2 ≤ length r.pcm
    → (audible (emit r d) ≡ audible r ++ take (pos_part d.samples * d.channels * 2) d.sound)
      × IsRing (emit r d)
unfolding emit audible backlog
emit-audible r d h long room = go (pos_part d.samples * d.channels * 2) long room
  where
    go :
        (bytes : ℕ)
        → bytes ≤ length d.sound
        → sub32 r.pcm_wr r.pcm_rd + bytes ≤ length r.pcm
        → let wr = r.pcm_wr % length r.pcm in
          let first = before_wrap (length r.pcm) wr bytes in
          let sound = take bytes d.sound in
          let after : Ring = record r {
            frames = add32 r.frames 1;
            pcm = write (write r.pcm wr (take first sound)) 0 (drop first sound);
            pcm_wr = add32 r.pcm_wr bytes;
            pcm_total = add32 r.pcm_total bytes;
          } in
          (between after.pcm after.pcm_wr after.pcm_rd ≡ between r.pcm r.pcm_wr r.pcm_rd ++ sound)
          × IsRing after
    go bytes long room =
        let sound = take bytes d.sound in
        let count : length sound ≡ bytes = omega (arith, length-take bytes d.sound) in
        let wr = r.pcm_wr % length r.pcm in
        let first = before_wrap (length r.pcm) wr bytes in
        let piece = write r.pcm wr (take first sound) in
        (
          subst
              (λ b.
                between
                  (write (write r.pcm wr (take (before_wrap (length r.pcm) wr b) sound)) 0
                    (drop (before_wrap (length r.pcm) wr b) sound))
                  (add32 r.pcm_wr b) r.pcm_rd
                ≡ between r.pcm r.pcm_wr r.pcm_rd ++ sound)
              count (between-grow_two r.pcm r.pcm_wr r.pcm_rd sound h.pcm_cursors (omega arith)),
          record {
            comp_cursors = h.comp_cursors;
            pcm_cursors =
                IsCursors-grow r.pcm (write piece 0 (drop first sound)) r.pcm_wr r.pcm_rd bytes
                  h.pcm_cursors
                  (length-write piece 0 (drop first sound)
                    ∙ length-write r.pcm wr (take first sound))
                  room;
            staged = h.staged;
          },
        )
