-- ===== src/Audio/Frames.antt =====
-- The response header and the first frame.
use casquinha.Audio.Handing.{find_frame-hands_over}
use casquinha.Mp3.{Frame, sync}
use casquinha.Audio.Listen.{
  stop_audio, header_end, open_output, is_sync, over, comp_max, is_http, goes_on, Listen, Answers,
  Pass,
}
use casquinha.Audio.Service.{opened, framed, find_frame, skip_header, cut_header}
use casquinha.Prelude.{
  drop, inr, Option-cases, inl, leb, Bool-cases, ◌&&◌, none, ◌+◌, length-drop, arith, ltb, if-both,
  ◌≤◌, true, ◌*◌, ℕ, length, Option, some, Bool, ◌≡◌, Bytes, refl,
}
use casquinha.Audio.Listens.{Settles, play-IsListen, stop-IsListen, InOrder, IsListen}

-- The buffers that are granted have the sizes that were asked for.
pub record GrantsRings (a : Answers) : Type 0 where
  pub comp_size : (comp : Bytes) → a.comp_ring ≡ some comp → length comp ≡ 256 * 1024
  pub pcm_size : (pcm : Bytes) → a.pcm_ring ≡ some pcm → length pcm ≡ 2048 * 1024

-- After the header part at most 8 KB are staged before the header has ended.
unfoldable pub Headed : {W : Type 0} → Pass W → Type 0
Headed (goes_on l) =
    InOrder l × (length l.comp ≤ comp_max) × (is_http l.state ≡ true → length l.comp ≤ 8192)
Headed (over l) = IsListen l

module _ {W : Type 0} where
  cut_header-Headed :
      (acks : Bool) (i : Option ℕ) (l : Listen W)
      → is_http l.state ≡ true
      → InOrder l
      → length l.comp ≤ comp_max
      → Headed (cut_header acks i l)
  unfolding cut_header Headed
  cut_header-Headed acks none l http h short =
      if-both Headed (ltb 8192 (length l.comp)) _ _ (λ e. stop-IsListen acks l)
        (λ e. (h, short, λ k. ground (arith, e)))
  cut_header-Headed acks (some i) l http h short = (
    record {
      ring_ok = λ e. absurd (ground (arith, e));
      unstaged = λ e. absurd (ground (arith, e));
      alive = λ e. h.alive (rw http refl);
      quiet = λ e. absurd (ground (arith, e));
    },
    omega (arith, length-drop (i + 4) l.comp, short),
    λ e. absurd (ground (arith, e)),
  )

  pub skip_header-Headed :
      (acks : Bool) (l : Listen W)
      → InOrder l
      → length l.comp ≤ comp_max
      → Headed (skip_header acks l)
  unfolding skip_header Headed
  skip_header-Headed acks l h short =
      if-both Headed (is_http l.state && leb 4 (length l.comp)) _ _
        (λ e. cut_header-Headed acks (header_end l.comp) l (ground (arith, e)) h short)
        (λ e. (h, short, λ http. ground (arith, e, http)))

  opened-Settles :
      (a : Answers) (off : ℕ) (f : Frame) (l : Listen W)
      → GrantsRings a
      → is_sync l.state ≡ true
      → length l.comp ≤ comp_max
      → sync l.comp ≡ some (off, f)
      → (p : Pass W) × (find_frame a l ≡ some p) × Settles p
  unfolding find_frame framed open_output opened Settles
  opened-Settles a off f l grants wait short found =
      let refused = over (stop_audio a.acks (record l { comp = drop off l.comp; fmt = f })) in
      elim (Option-cases a.pcm_ring) [
        | inl no_pcm ↦ (refused, rw (wait, found, no_pcm) refl, stop-IsListen a.acks _)
        | inr (pcm, at_pcm) ↦ elim (Option-cases a.comp_ring) [
          | inl no_comp ↦ (refused, rw (wait, found, at_pcm, no_comp) refl, stop-IsListen a.acks _)
          | inr (comp, at_comp) ↦
              let out =
                find_frame-hands_over a comp pcm off f l
                  (record {
                    comp_is = at_comp;
                    pcm_is = at_pcm;
                    comp_size = grants.comp_size comp at_comp;
                    pcm_size = grants.pcm_size pcm at_pcm;
                  })
                  wait short found in
              (goes_on out.0, out.1, play-IsListen out.0 out.2 out.5 out.3)
        ]
      ]

  sought :
      (a : Answers) (l : Listen W)
      → is_sync l.state ≡ true
      → InOrder l
      → sync l.comp ≡ none
      → (p : Pass W) × (find_frame a l ≡ some p) × Settles p
  unfolding find_frame framed Settles
  sought a l wait h lost = (
    _,
    rw (wait, lost) refl,
    if-both Settles (ltb (32 * 1024) (length l.comp)) (over (stop_audio a.acks l)) (goes_on l)
        (λ e. stop-IsListen a.acks l)
        (λ e. record {
          in_order = h;
          http_bound = λ k. absurd (ground (arith, k, wait));
          sync_bound = λ k. ground (arith, e);
        }),
  )

  pub find_frame-Settles :
      (a : Answers) (l : Listen W)
      → GrantsRings a
      → Headed (goes_on l)
      → (p : Pass W) × (find_frame a l ≡ some p) × Settles p
  unfolding Headed find_frame Settles
  find_frame-Settles a l grants h = elim (Bool-cases (is_sync l.state)) [
    | inl wait ↦ elim (Option-cases (sync l.comp)) [
      | inl lost ↦ sought a l wait h.0 lost
      | inr ((off, f), found) ↦ opened-Settles a off f l grants wait h.1 found
    ]
    | inr elsewhere ↦ (
      goes_on l,
      rw elsewhere refl,
      record {
        in_order = h.0;
        http_bound = h.2;
        sync_bound = λ k. absurd (ground (arith, k, elsewhere));
      },
    )
  ]
