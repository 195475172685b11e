-- ===== src/Audio/Passes.antt =====
-- One pass of `ServiceAudio` as a whole.
use casquinha.DecRing.Pump.{pump-IsPumped}
use casquinha.Audio.{double_back}
use casquinha.Audio.Ends.{double_back-IsRefill}
use casquinha.DecRing.Round.{IsDecoder}
use casquinha.DecRing.{pump, backlog, Env}
use casquinha.DecRing.Fifo.{IsRing}
use casquinha.App.Scene.{prebuffer, au_play}
use casquinha.Audio.Listen.{
  is_off, is_stream, start_output, stop_audio, over, goes_on, is_play, Listen, Answers, Pass,
}
use casquinha.Audio.Service.{
  pumped, play, after_wire, after_frame, after_header, service_audio, play_on, note_ticks,
  played_out, start_when_full, ask_trim, skip_header,
}
use casquinha.Prelude.{
  ap, ◌||◌, sym, subst, not, inr, inl, leb, Bool-cases, ◌&&◌, arith, ltb, if-both, true, [], ℕ,
  Option, false, some, Bool, ◌⊎◌, ◌≡◌, refl,
}
use casquinha.Audio.Listens.{
  wire-Keeps, play_lem, Settles, play-IsListen, stop-IsListen, Keeps, IsListen,
}
use casquinha.Audio.Frames.{GrantsRings, Headed, skip_header-Headed, find_frame-Settles}

-- A listen whose channel plays.
record IsPlaying {W : Type 0} (l : Listen W) : Type 0 where
  at_play : l.state ≡ au_play
  bare : l.comp ≡ []
  ring_ok : IsRing l.out.ring

-- It plays on, or it has been stopped.
Ended : {W : Type 0} → Listen W → Type 0
Ended l = IsPlaying l ⊎ ((is_play l.state ≡ false) × IsListen l)

module _ {W : Type 0} where
  play-Settled : (l : Listen W) → IsPlaying l → IsListen l
  play-Settled l h = play-IsListen l h.at_play h.ring_ok h.bare

  start_output-IsPlaying :
      (a : Answers) (l : Listen W) → IsPlaying l → IsPlaying (start_output a l).0
  unfolding start_output
  start_output-IsPlaying a l h =
      let on = is_stream l.stream in
      let filled =
        (double_back-IsRefill on (double_back on l.out).0
          (double_back-IsRefill on l.out h.ring_ok).ring_ok).ring_ok in
      if-both (λ (r : Listen W × Bool). IsPlaying r.0) (not a.buffers) _ _ (λ e. h)
        (λ e.
          if-both (λ (r : Listen W × Bool). IsPlaying r.0) (not a.channel) _ _
            (λ k. record { at_play = h.at_play; bare = h.bare; ring_ok = h.ring_ok })
            (λ k. record { at_play = h.at_play; bare = h.bare; ring_ok = filled }))

  stopped :
      (acks : Bool) (k : Listen W)
      → (is_play (stop_audio acks k).state ≡ false) × IsListen (stop_audio acks k)
  unfolding stop_audio
  stopped acks k = (refl, stop-IsListen acks k)

  start_when_full-Ended : (a : Answers) (l : Listen W) → IsPlaying l → Ended (start_when_full a l)
  unfolding start_when_full Ended
  start_when_full-Ended a l h =
      if-both Ended
        (not l.playing
          && (leb prebuffer (backlog l.out.ring)
              || (not (is_stream l.stream) && ltb 0 (backlog l.out.ring))))
        _ _
        (λ e.
          if-both Ended (start_output a l).1 _ _ (λ k. inl (start_output-IsPlaying a l h))
            (λ k. inr (stopped a.acks (start_output a l).0)))
        (λ e. inl h)

  ask_trim-IsPlaying : (l : Listen W) → IsPlaying l → IsPlaying (ask_trim l)
  unfolding ask_trim
  ask_trim-IsPlaying l h =
      if-both IsPlaying _ _ _
        (λ e. record { at_play = h.at_play; bare = h.bare; ring_ok = h.ring_ok }) (λ e. h)

  note_ticks-IsPlaying : (now : ℕ) (l : Listen W) → IsPlaying l → IsPlaying (note_ticks now l)
  unfolding note_ticks
  note_ticks-IsPlaying now l h = record { at_play = h.at_play; bare = h.bare; ring_ok = h.ring_ok }

  played_out-IsListen : (acks : Bool) (l : Listen W) → IsPlaying l → IsListen (played_out acks l)
  unfolding played_out
  played_out-IsListen acks l h =
      if-both IsListen _ _ _ (λ e. stop-IsListen acks l) (λ e. play-Settled l h)

  play_on-IsListen : (a : Answers) (l : Listen W) → IsPlaying l → IsListen (play_on a l)
  unfolding play_on Ended
  play_on-IsListen a l h = elim (start_when_full-Ended a l h) [
    | inl on ↦
        if-both IsListen (is_play (start_when_full a l).state) _ _
          (λ e.
            played_out-IsListen a.acks _
              (ask_trim-IsPlaying _ (note_ticks-IsPlaying a.now (start_when_full a l) on)))
          (λ e. play-Settled (start_when_full a l) on)
    | inr (off, rest) ↦ rw off rest
  ]

module _ (e : Env) where
  -- A pass that comes to an end, and leaves a listen.
  Returns : Option (Listen e.World) → Type 0
  Returns o = (l : Listen e.World) × (o ≡ some l) × IsListen l

  pumped-Returns :
      (a : Answers) (l : Listen e.World)
      → IsDecoder e
      → IsPlaying l
      → Returns (pumped a (pump e l.world l.out.ring) l)
  unfolding Returns pumped
  pumped-Returns a l dec h =
      let ran = pump-IsPumped e l.world l.out.ring dec h.ring_ok in
      let l' : Listen e.World = record l {
        out = record l.out { ring = ran.0.1 };
        world = ran.0.2;
      } in
      (
        play_on a l',
        ap (λ o. pumped a o l) ran.1,
        play_on-IsListen a l'
            (record { at_play = h.at_play; bare = h.bare; ring_ok = ran.2.ring_ok }),
      )

  play-Returns :
      (a : Answers) (l : Listen e.World) → IsDecoder e → IsListen l → Returns (play e a l)
  unfolding Returns play
  play-Returns a l dec h =
      if-both Returns (not (is_play l.state)) _ _ (λ off. (l, refl, h))
        (λ on.
          let plays : is_play l.state ≡ true = ground (arith, on) in
          let now : IsPlaying l = record {
            at_play = play_lem l.state plays;
            bare = h.in_order.unstaged plays;
            ring_ok = h.in_order.ring_ok plays;
          } in
          if-both Returns l.mp_decode _ _ (λ t. (play_on a l, refl, play_on-IsListen a l now))
            (λ t. pumped-Returns a l dec now))

  after_frame-IsListen :
      (a : Answers) (p : Pass e.World)
      → IsDecoder e
      → Settles p
      → (l' : Listen e.World) × (after_frame e a (some p) ≡ some l') × IsListen l'
  unfolding after_frame Settles Returns
  after_frame-IsListen a (goes_on l) dec h = play-Returns a l dec h
  after_frame-IsListen a (over l) dec h = (l, refl, h)

  after_header-IsListen :
      (a : Answers) (p : Pass e.World)
      → IsDecoder e
      → GrantsRings a
      → Headed p
      → (l' : Listen e.World) × (after_header e a p ≡ some l') × IsListen l'
  unfolding after_header Headed
  after_header-IsListen a (over l) dec grants h = (l, refl, h)
  after_header-IsListen a (goes_on l) dec grants h =
      let found = find_frame-Settles a l grants h in
      subst (λ o. (l' : Listen e.World) × (after_frame e a o ≡ some l') × IsListen l') (sym found.1)
        (after_frame-IsListen a found.0 dec found.2)

  after_wire-IsListen :
      (a : Answers) (p : Pass e.World)
      → IsDecoder e
      → GrantsRings a
      → Keeps p
      → (l' : Listen e.World) × (after_wire e a (some p) ≡ some l') × IsListen l'
  unfolding after_wire Keeps
  after_wire-IsListen a (over l) dec grants h = (l, refl, h)
  after_wire-IsListen a (goes_on l) dec grants h =
      after_header-IsListen a (skip_header a.acks l) dec grants
        (skip_header-Headed a.acks l h.0 h.1)

-- With a decoder that keeps its promises, whatever the stream, the Toolbox and the decode task answer
-- in a pass, the pass comes to an end and leaves the listen in order: with at most 8 KB staged before
-- the header has ended and 32 KB before the first frame, with a stream as long as the first frame is
-- awaited, with both rings in order and nothing staged while the channel plays, and with neither
-- stream nor channel once it is stopped. The buffers that are granted have the sizes asked for.
pub service_audio-IsListen :
    (e : Env) (a : Answers) (l : Listen e.World)
    → IsDecoder e
    → GrantsRings a
    → IsListen l
    → (l' : Listen e.World) × (service_audio e a l ≡ some l') × IsListen l'
unfolding service_audio
service_audio-IsListen e a l dec grants h = elim (Bool-cases (is_off l.state)) [
  | inl off ↦ (l, rw off refl, h)
  | inr on ↦
      let done = wire-Keeps a l h on in
      let rest = after_wire-IsListen e a done.0 dec grants done.2 in
      (rest.0, rw (on, done.1) rest.1, rest.2)
]
