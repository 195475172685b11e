-- ===== src/Audio/Listens.antt =====
-- The state machine of a listen, a pass of the event loop at a time.
use casquinha.Audio.Ends.{drain_stream-IsFeed}
use casquinha.Transport.Buffer.{drain_lem}
use casquinha.Transport.{is_running, drain, Transport}
use casquinha.DecRing.{Ring, close}
use casquinha.Prelude.{Option, ap, ℕ, none, if-both, length-append, ◌-◌, some, refl}
use casquinha.DecRing.Fifo.{IsRing}
use casquinha.App.Scene.{au_sync, au_http, au_idle, AudioState, au_play}
use casquinha.Prelude.{
  inr, false, inl, ◌⊎◌, ◌*◌, sym, subst, ◌||◌, [], ◌≤◌, length, arith, true, Bool, ◌≡◌,
}
use casquinha.Audio.Listen.{
  Answers, is_off, is_stream, comp_max, is_sync, over, goes_on, Pass, is_play, stop_audio, is_http,
  Listen,
}
use casquinha.Audio.Service.{wire_on, last_fed, fed, wire, stage_wire, feed_play}

-- Nothing is staged while the channel plays or nothing is heard; a listen that waits for its first
-- frame has its stream; and one that has been stopped has neither stream nor channel.
pub record InOrder {W : Type 0} (l : Listen W) : Type 0 where
  pub ring_ok : is_play l.state ≡ true → IsRing l.out.ring
  pub unstaged : is_play l.state ≡ true → l.comp ≡ []
  pub alive : (is_http l.state || is_sync l.state) ≡ true → is_stream l.stream ≡ true
  pub quiet :
      is_off l.state ≡ true
      → (l.comp ≡ []) × (is_stream l.stream ≡ false) × (l.chan ≡ false) × (l.playing ≡ false)

-- In order, with at most 8 KB staged before the header has ended and 32 KB before the first frame.
pub record IsListen {W : Type 0} (l : Listen W) : Type 0 where
  pub in_order : InOrder l
  pub http_bound : is_http l.state ≡ true → length l.comp ≤ 8192
  pub sync_bound : is_sync l.state ≡ true → length l.comp ≤ 32 * 1024

-- What the parts of a pass keep: in order when they go on, and a listen when they return.
unfoldable pub Keeps : {W : Type 0} → Pass W → Type 0
Keeps (goes_on l) = InOrder l × (length l.comp ≤ comp_max)
Keeps (over l) = IsListen l

unfoldable pub Settles : {W : Type 0} → Pass W → Type 0
Settles (goes_on l) = IsListen l
Settles (over l) = IsListen l

pub play_lem : (s : AudioState) → is_play s ≡ true → s ≡ au_play
play_lem au_play h = refl
play_lem au_idle h = absurd (ground (arith, h))
play_lem au_http h = absurd (ground (arith, h))
play_lem au_sync h = absurd (ground (arith, h))

places :
    (s : AudioState)
    → (is_off s ≡ true) ⊎ ((is_http s ≡ true) ⊎ ((is_sync s ≡ true) ⊎ (is_play s ≡ true)))
places au_idle = inl refl
places au_http = inr (inl refl)
places au_sync = inr (inr (inl refl))
places au_play = inr (inr (inr refl))

close-IsRing : (r : Ring) → IsRing r → IsRing (close r)
unfolding close
close-IsRing r h = record {
  comp_cursors = h.comp_cursors;
  pcm_cursors = h.pcm_cursors;
  staged = h.staged;
}

module _ {W : Type 0} where
  pub stop-IsListen : (acks : Bool) (l : Listen W) → IsListen (stop_audio acks l)
  unfolding stop_audio
  stop-IsListen acks l = record {
    in_order = record {
      ring_ok = λ h. absurd (ground (arith, h));
      unstaged = λ h. refl;
      alive = λ h. absurd (ground (arith, h));
      quiet = λ h. (refl, refl, refl, refl);
    };
    http_bound = λ h. absurd (ground (arith, h));
    sync_bound = λ h. absurd (ground (arith, h));
  }

  play-InOrder : (l : Listen W) → l.state ≡ au_play → IsRing l.out.ring → l.comp ≡ [] → InOrder l
  play-InOrder l e ring none_staged = record {
    ring_ok = λ h. ring;
    unstaged = λ h. none_staged;
    alive = λ h. absurd (other l.state e (inl h));
    quiet = λ h. absurd (other l.state e (inr h));
  }
    where
      other :
          (s : AudioState) → s ≡ au_play → ((is_http s || is_sync s) ≡ true) ⊎ (is_off s ≡ true) → ⊥
      other s e h = ground (arith, e, h)

  pub play-IsListen :
      (l : Listen W) → l.state ≡ au_play → IsRing l.out.ring → l.comp ≡ [] → IsListen l
  play-IsListen l e ring none_staged = record {
    in_order = play-InOrder l e ring none_staged;
    http_bound = λ h. subst (λ b. length b ≤ 8192) (sym none_staged) (omega arith);
    sync_bound = λ h. subst (λ b. length b ≤ 32 * 1024) (sym none_staged) (omega arith);
  }

  pub length-comp : (l : Listen W) → IsListen l → length l.comp ≤ 32 * 1024
  length-comp l h = elim (places l.state) [
    | inl off ↦ rw ((h.in_order.quiet off).0) (omega arith)
    | inr (inl http) ↦ omega (arith, h.http_bound http)
    | inr (inr (inl wait)) ↦ h.sync_bound wait
    | inr (inr (inr play)) ↦ rw (h.in_order.unstaged play) (omega arith)
  ]

  fed-Keeps :
      (runs : Bool) (r : Ring) (t : Transport) (rx : ℕ) (l : Listen W)
      → l.state ≡ au_play
      → IsRing r
      → l.comp ≡ []
      → (p : Pass W) × (fed runs (some (r, t, rx)) l ≡ some p) × Keeps p
  unfolding fed last_fed Keeps
  fed-Keeps true r t rx l e ring bare =
      (_, refl, (play-InOrder _ e ring bare, rw bare (omega arith)))
  fed-Keeps false r t rx l e ring bare =
      let again = drain_stream-IsFeed r t rx ring in
      (
        goes_on (record l {
          stream = none;
          out = record l.out { ring = close again.0.0 };
          rx_total = again.0.2;
        }),
        ap (λ o. last_fed o l) again.1,
        (
          play-InOrder _ e (close-IsRing again.0.0 again.2.ring_ok) bare,
          subst (λ b. length b ≤ comp_max) (sym bare) (omega arith),
        ),
      )

  feed_play-Keeps :
      (t : Transport) (l : Listen W)
      → l.state ≡ au_play
      → IsRing l.out.ring
      → l.comp ≡ []
      → (p : Pass W) × (feed_play t l ≡ some p) × Keeps p
  unfolding feed_play
  feed_play-Keeps t l e ring bare =
      let first = drain_stream-IsFeed l.out.ring t l.rx_total ring in
      subst (λ o. (p : Pass W) × (fed (is_running t.status) o l ≡ some p) × Keeps p) (sym first.1)
        (fed-Keeps (is_running t.status) first.0.0 first.0.1 first.0.2 l e first.2.ring_ok bare)

  stage_wire-Keeps :
      (acks : Bool) (t : Transport) (l : Listen W)
      → is_play l.state ≡ false
      → is_off l.state ≡ false
      → length l.comp ≤ comp_max
      → Keeps (stage_wire acks t l)
  unfolding stage_wire Keeps
  stage_wire-Keeps acks t l early on short =
      let d = drain_lem t (comp_max - length l.comp) in
      let size = length-append l.comp (drain t (comp_max - length l.comp)).1 in
      if-both Keeps (is_running t.status) _ _
        (λ e. (
          record {
            ring_ok = λ h. absurd (ground (arith, h, early));
            unstaged = λ h. absurd (ground (arith, h, early));
            alive = λ h. refl;
            quiet = λ h. absurd (ground (arith, h, on));
          },
          omega (arith, d.1, size, short),
        ))
        (λ e. stop-IsListen acks _)

  wire_on-Keeps :
      (a : Answers) (stream : Option Transport) (plays : Bool) (l : Listen W)
      → IsListen l
      → is_off l.state ≡ false
      → is_play l.state ≡ plays
      → (p : Pass W) × (wire_on a stream plays l ≡ some p) × Keeps p
  unfolding wire_on Keeps
  wire_on-Keeps a none plays l h on e =
      (goes_on l, refl, (h.in_order, omega (arith, length-comp l h)))
  wire_on-Keeps a (some t) true l h on e =
      feed_play-Keeps (a.polled t) l (play_lem l.state e) (h.in_order.ring_ok e)
        (h.in_order.unstaged e)
  wire_on-Keeps a (some t) false l h on e = (
    stage_wire a.acks (a.polled t) l,
    refl,
    stage_wire-Keeps a.acks (a.polled t) l e on (omega (arith, length-comp l h)),
  )

  pub wire-Keeps :
      (a : Answers) (l : Listen W)
      → IsListen l
      → is_off l.state ≡ false
      → (p : Pass W) × (wire a l ≡ some p) × Keeps p
  unfolding wire
  wire-Keeps a l h on = wire_on-Keeps a l.stream (is_play l.state) l h on refl
