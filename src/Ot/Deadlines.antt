-- ===== src/Ot/Deadlines.antt =====
-- The two deadlines of a poll.
use casquinha.Ot.Outcomes.{Setup, setup}
use casquinha.Ot.Reports.{under_way, slices, checks, busy}
use casquinha.Ot.Ends.{IsSound}
use casquinha.Transport.{timeout_error, is_running, failed, running, fail as posix_fail}
use casquinha.Prelude.{
  ◌∙◌, ap, sym, inr, inl, Bool-cases, ◌⊎◌, ◌≢◌, ◌%◌, ◌||◌, ◌+◌, ◌^◌, ◌<◌, codes, not, arith, Bytes,
  ltb, ◌&&◌, Bool, ◌≤◌, ◌≡◌, refl, true, false, ℕ, if-both,
}
use casquinha.Ot.{
  State, st_failed, st_receiving, Globals, Provider, Memory, watchdog_ticks, TxError,
  deadline_ticks, teardown, fail, OtTransport, st_connecting,
}
use casquinha.Ot.Loop.{poll, check_time, ticks_since, is_connecting, is_receiving}

-- What is still running is within its deadlines.
pub record IsTimely (now : ℕ) (t : OtTransport) : Type 0 where
  pub connecting : t.st ≡ st_connecting → ticks_since now t.connect_tick ≤ deadline_ticks
  pub talking :
      (t.tx.streaming && is_receiving t.st) ≡ false → ticks_since now t.start_tick ≤ watchdog_ticks

fail-failed : (t : OtTransport) (e : TxError) (what : Bytes) → (fail t e what).tx.status ≡ failed
unfolding fail posix_fail teardown
fail-failed t e what =
    if-both (λ (t' : OtTransport). t'.tx.status ≡ failed) t.tx.fd _ _ (λ _. refl) (λ _. refl)

checked :
    (now : ℕ) (t : OtTransport)
    → (check_time now t).tx.status ≡ running
    → IsTimely now (check_time now t)
unfolding check_time
checked now t =
    if-both (λ (t' : OtTransport). t'.tx.status ≡ running → IsTimely now t')
      (not (is_running t.tx.status)) _ _ (λ e r. absurd (ground (arith, e, r)))
      (λ _.
        if-both (λ (t' : OtTransport). t'.tx.status ≡ running → IsTimely now t')
          (is_connecting t.st && ltb deadline_ticks (ticks_since now t.connect_tick)) _ _
          (λ _ r.
            absurd
              (ground (arith, r, fail-failed t timeout_error (codes "Timed out connecting to"))))
          (λ early.
            if-both (λ (t' : OtTransport). t'.tx.status ≡ running → IsTimely now t')
              (not (t.tx.streaming && is_receiving t.st)
                && ltb watchdog_ticks (ticks_since now t.start_tick))
              _ _
              (λ _ r.
                absurd
                  (ground (arith, r, fail-failed t timeout_error (codes "Timed out talking to"))))
              (λ soon r. record {
                connecting = λ c. in_time (is_connecting t.st) _ deadline_ticks early (rw c refl);
                talking = λ c.
                    in_time (not (t.tx.streaming && is_receiving t.st)) _ watchdog_ticks soon
                      (rw c refl);
              })))
  where
    in_time : (b : Bool) (d limit : ℕ) → (b && ltb limit d) ≡ false → b ≡ true → d ≤ limit
    in_time b d limit e o = ground (arith, e, o)

poll-IsTimely :
    (m : Memory) (p : Provider) (g : Globals) (now : ℕ) (t : OtTransport)
    → t.tx.cancelled ≡ false
    → (poll m p g now t).0.tx.status ≡ running
    → IsTimely now (poll m p g now t).0
unfolding poll
poll-IsTimely m p g now t live =
    if-both (λ (o : OtTransport × Globals × Memory). o.0.tx.status ≡ running → IsTimely now o.0)
      (t.tx.cancelled || not (is_running t.tx.status)) _ _
      (λ e r. absurd (busy t.tx.cancelled t.tx.status live r e)) (λ _. checked now _)

poll-setup :
    (m : Memory) (p : Provider) (g : Globals) (now : ℕ) (t : OtTransport)
    → IsSound t
    → setup (poll m p g now t).0 ≡ setup t
unfolding poll
poll-setup m p g now t sound =
    if-both (λ (o : OtTransport × Globals × Memory). setup o.0 ≡ setup t)
      (t.tx.cancelled || not (is_running t.tx.status)) _ _ (λ _. refl)
      (λ e.
        (checks now t.st (setup t) _
          (slices m p g t t.st refl (alive (under_way t.tx.cancelled t.tx.status e).1))).settings)
  where
    alive : t.tx.status ≡ running → t.st ≢ st_failed
    alive r f = ground (arith, sound.ended, r, f)

-- The clock has wrapped around or not.
ticks_lem : (t₀ d : ℕ) → t₀ < 2 ^ 32 → d < 2 ^ 32 → ticks_since ((t₀ + d) % 2 ^ 32) t₀ ≡ d
ticks_lem t₀ d h k = omega arith

-- A transaction that is no stream, is not cancelled and is polled more than 300 ticks and less than
-- 2^32 after its start is over after that poll, done or failed, whatever Open Transport answers in it and wherever the clock of 32 bits stands;
-- so is one that is a stream, unless it has come to receive.
pub poll_deadline :
    (m : Memory) (p : Provider) (g : Globals) (d : ℕ) (t : OtTransport)
    → IsSound t
    → t.tx.cancelled ≡ false
    → t.start_tick < 2 ^ 32
    → watchdog_ticks < d
    → d < 2 ^ 32
    → let t' = (poll m p g ((t.start_tick + d) % 2 ^ 32) t).0 in
      (t'.tx.status ≢ running) ⊎ ((t.tx.streaming ≡ true) × (t'.st ≡ st_receiving))
poll_deadline m p g d t sound live clock late short =
    let now = (t.start_tick + d) % 2 ^ 32 in
    over (poll m p g now t).0 (poll-setup m p g now t sound) (poll-IsTimely m p g now t live)
  where
    both : (b : Bool) (s : State) → (b && is_receiving s) ≡ true → (b ≡ true) × (s ≡ st_receiving)
    both b s e = ground (arith, e)

    late_not :
        (t₀ : ℕ)
        → t₀ ≡ t.start_tick
        → ¬ (ticks_since ((t.start_tick + d) % 2 ^ 32) t₀ ≤ watchdog_ticks)
    late_not t₀ same h = ground (arith, ticks_lem t.start_tick d clock short, same, h)

    over :
        (t' : OtTransport)
        → setup t' ≡ setup t
        → (t'.tx.status ≡ running → IsTimely ((t.start_tick + d) % 2 ^ 32) t')
        → (t'.tx.status ≢ running) ⊎ ((t.tx.streaming ≡ true) × (t'.st ≡ st_receiving))
    over t' same timely = elim (Bool-cases (t'.tx.streaming && is_receiving t'.st)) [
      | inl endless ↦ inr (
        sym (ap (λ (c : Setup). c.2) same) ∙ (both t'.tx.streaming t'.st endless).0,
        (both t'.tx.streaming t'.st endless).1,
      )
      | inr whole ↦ inl (λ r. late_not _ (ap (λ (c : Setup). c.0) same) ((timely r).talking whole))
    ]
