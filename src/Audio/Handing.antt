-- ===== src/Audio/Handing.antt =====
-- What is staged goes to the decode pipeline whole when the channel is opened.
use casquinha.DecRing.Cursors.{length-between, IsCursors, between}
use native.Mathlib.Nat.{dvd-mul_left}
use Prim.Native.Nat.{◌∣◌}
use casquinha.Prelude.{
  ◌&&◌, not, if-both, Bool, length-drop, refl, ◌≡◌, sym, ap, ◌∙◌, arith, ◌≤◌, subst,
}
use casquinha.DecRing.{init}
use casquinha.App.Scene.{au_play}
use casquinha.Mp3.{sync, Frame}
use casquinha.Prelude.{
  drop, ◌++◌, drop-all, ap, true, ◌∙◌, take-all, false, ◌==◌, sym, subst, min, arith, suc, ◌∷◌, ◌^◌,
  [], ◌<◌, ◌≤◌, ◌*◌, some, ◌≡◌, length, ℕ, Bytes,
}
use casquinha.DecRing.{put, Ring, space, claim}
use casquinha.DecRing.Fifo.{put-pending, IsRing, pending}
use casquinha.Audio.Listen.{
  park_task, goes_on, comp_max, is_sync, Listen, arm, open_output, hand_over, Answers,
}
use casquinha.Audio.Service.{opened, framed, handed_on, playing_with, begin_play, find_frame}

-- The two rings of the program.
pub record HasRings (a : Answers) (comp pcm : Bytes) : Type 0 where
  pub comp_is : a.comp_ring ≡ some comp
  pub pcm_is : a.pcm_ring ≡ some pcm
  pub comp_size : length comp ≡ 256 * 1024
  pub pcm_size : length pcm ≡ 2048 * 1024

fresh-IsCursors :
    (ring : Bytes)
    → 0 < length ring
    → length ring < 2 ^ 32
    → length ring ∣ 2 ^ 32
    → IsCursors ring 0 0
fresh-IsCursors ring room short div = record {
  some_room = room;
  word = short;
  divides = div;
  wr_word = omega arith;
  rd_word = omega arith;
  fits = omega arith;
}

pub init-IsRing :
    (comp pcm : Bytes)
    → length comp ≡ 256 * 1024
    → length pcm ≡ 2048 * 1024
    → IsRing (init comp pcm 0 0)
unfolding init
init-IsRing comp pcm c p = record {
  comp_cursors =
      fresh-IsCursors comp (omega (arith, c)) (omega (arith, c))
        (subst (λ n. n ∣ 2 ^ 32) (sym c) (dvd-mul_left (256 * 1024) (2 ^ 14)));
  pcm_cursors =
      fresh-IsCursors pcm (omega (arith, p)) (omega (arith, p))
        (subst (λ n. n ∣ 2 ^ 32) (sym p) (dvd-mul_left (2048 * 1024) (2 ^ 11)));
  staged = omega arith;
}

claim-init :
    (comp pcm : Bytes) → length comp ≡ 256 * 1024 → (claim (init comp pcm 0 0)).1 ≡ 256 * 1024
unfolding claim init space
claim-init comp pcm c = rw c refl

empty : (b : Bytes) → length b ≡ 0 → b ≡ []
empty [] e = refl
empty (c ∷ cs) e = absurd (omega arith)

pending-init : (comp pcm : Bytes) → pending (init comp pcm 0 0) ≡ []
unfolding pending init
pending-init comp pcm = empty (between comp 0 0) (length-between comp 0 0)

-- The first round writes everything, and the second finds nothing left.
hand_over-all :
    (r : Ring) (bytes : Bytes)
    → length bytes ≤ (claim r).1
    → 0 < length bytes
    → hand_over (suc (length bytes)) r bytes ≡ some (put r bytes)
unfolding hand_over
hand_over-all r [] h k = absurd (omega arith)
hand_over-all r (c ∷ cs) h k =
    let bytes : Bytes = c ∷ cs in
    let n : min (claim r).1 (length bytes) ≡ length bytes = ground arith in
    let room : ((claim r).1 == 0) ≡ false = ground arith in
    let filled : (length bytes == 0) ≡ false = ground arith in
    rw (n, room, take-all bytes, drop-all bytes) (rw filled refl)

pub hand_over-pending :
    (comp pcm bytes : Bytes)
    → length comp ≡ 256 * 1024
    → length pcm ≡ 2048 * 1024
    → length bytes ≤ 256 * 1024
    → (r : Ring) × (hand_over (suc (length bytes)) (init comp pcm 0 0) bytes ≡ some r)
      × (pending r ≡ bytes)
      × IsRing r
unfolding hand_over
hand_over-pending comp pcm [] c p h =
    (init comp pcm 0 0, refl, pending-init comp pcm, init-IsRing comp pcm c p)
hand_over-pending comp pcm (b ∷ bs) c p h =
    let bytes : Bytes = b ∷ bs in
    let fits : length bytes ≤ (claim (init comp pcm 0 0)).1 =
      subst (λ n. length bytes ≤ n) (sym (claim-init comp pcm c)) h in
    let moved = put-pending (init comp pcm 0 0) bytes (init-IsRing comp pcm c p) fits in
    (
      put (init comp pcm 0 0) bytes,
      hand_over-all (init comp pcm 0 0) bytes fits (omega arith),
      moved.0 ∙ ap (λ q. q ++ bytes) (pending-init comp pcm),
      moved.1,
    )

module _ {W : Type 0} where
  park_task-comp : (acks : Bool) (l : Listen W) → (park_task acks l).comp ≡ l.comp
  unfolding park_task
  park_task-comp acks l =
      if-both (λ (k : Listen W). k.comp ≡ l.comp) l.has_task _ _ (λ e. refl) (λ e. refl)

  arm-comp :
      (makes_task acks : Bool) (comp pcm : Bytes) (l : Listen W)
      → (arm makes_task acks comp pcm l).comp ≡ l.comp
  unfolding arm
  arm-comp makes_task acks comp pcm l =
      park_task-comp acks _
      ∙ if-both (λ (k : Listen W). k.comp ≡ l.comp) (not l.has_task && makes_task) _ _ (λ e. refl)
          (λ e. refl)

  arm-ring :
      (makes_task acks : Bool) (comp pcm : Bytes) (l : Listen W)
      → (arm makes_task acks comp pcm l).out.ring ≡ init comp pcm 0 0
  unfolding arm
  arm-ring makes_task acks comp pcm l = refl

  begin_play_lem :
      (l : Listen W) (ring r : Ring) (staged : Bytes)
      → l.out.ring ≡ ring
      → l.comp ≡ staged
      → hand_over (suc (length staged)) ring staged ≡ some r
      → begin_play l ≡ some (goes_on (playing_with r l))
  unfolding begin_play handed_on
  begin_play_lem l ring r staged at_ring at_comp handed =
      let at_staged : hand_over (suc (length l.comp)) ring l.comp ≡ some r =
        subst (λ b. hand_over (suc (length b)) ring b ≡ some r) (sym at_comp) handed in
      ap (λ o. handed_on o l)
        (subst (λ q. hand_over (suc (length l.comp)) q l.comp ≡ some r) (sym at_ring) at_staged)

-- When the staged bytes have a confirmed frame and both rings are granted, the search for it opens
-- the output and the channel's state is play; nothing stays staged, and what waits for the decoder is
-- the staged bytes from the frame on, none lost, repeated or reordered, in rings that are in order.
pub find_frame-hands_over :
    {W : Type 0} (a : Answers) (comp pcm : Bytes) (off : ℕ) (f : Frame) (l : Listen W)
    → HasRings a comp pcm
    → is_sync l.state ≡ true
    → length l.comp ≤ comp_max
    → sync l.comp ≡ some (off, f)
    → (l' : Listen W) × (find_frame a l ≡ some (goes_on l'))
      × (l'.state ≡ au_play)
      × (l'.comp ≡ [])
      × (pending l'.out.ring ≡ drop off l.comp)
      × IsRing l'.out.ring
unfolding find_frame framed opened open_output playing_with
find_frame-hands_over {W = W} a comp pcm off f l h at_sync short found =
    let staged = drop off l.comp in
    let handed =
      hand_over-pending comp pcm staged h.comp_size h.pcm_size
        (omega (arith, length-drop off l.comp, short)) in
    let l₁ : Listen W = record l { comp = staged; fmt = f } in
    let ready = arm a.makes_task a.acks comp pcm l₁ in
    let armed =
      begin_play_lem ready (init comp pcm 0 0) handed.0 staged
        (arm-ring a.makes_task a.acks comp pcm l₁) (arm-comp a.makes_task a.acks comp pcm l₁)
        handed.1 in
    (
      playing_with handed.0 ready,
      rw (at_sync, found, h.pcm_is, h.comp_is) armed,
      refl,
      refl,
      handed.2,
      handed.3,
    )
