-- ===== src/View/Differs.antt =====
-- The repaint gate.
use casquinha.Prelude.{
  ◌≡◌, ◌↔◌, refl, sym, ap, arith, Bool, true, false, not, ◌||◌, Bytes, bytes_eq, bytes_eq_iff,
}
use casquinha.Prelude.Int.{ℤ, quot, eq_of_parts}
use casquinha.View.{View, eq_ℤ, eq_bool, differs}

-- What can be seen of a view: its position only to the second.
pub record Shown : Type 0 where
  pub state_word : Bytes
  pub status : Bytes
  pub cover_key : Bytes
  pub ack_active : Bool
  pub title_green : Bool
  pub buffer_pct : ℤ
  pub show_progress : Bool
  pub duration_ms : ℤ
  pub second : ℤ

pub shown : View → Shown
shown v = record {
  state_word = v.state_word;
  status = v.status;
  cover_key = v.cover_key;
  ack_active = v.ack_active;
  title_green = v.title_green;
  buffer_pct = v.buffer_pct;
  show_progress = v.show_progress;
  duration_ms = v.duration_ms;
  second = quot v.position_ms 1000;
}

eq_ℤ_refl : (a : ℤ) → eq_ℤ a a ≡ true
eq_ℤ_refl a = ground arith

eq_ℤ→eq : (a b : ℤ) → eq_ℤ a b ≡ true → a ≡ b
eq_ℤ→eq a b h = eq_of_parts a b (ground arith)

eq_bool_refl : (a : Bool) → eq_bool a a ≡ true
eq_bool_refl true = refl
eq_bool_refl false = refl

eq_bool→eq : (a b : Bool) → eq_bool a b ≡ true → a ≡ b
eq_bool→eq true b h = sym h
eq_bool→eq false true h = absurd (ground arith)
eq_bool→eq false false h = refl

split : (a b : Bool) → a || not b ≡ false → (a ≡ false) × (b ≡ true)
split a true h = (ground arith, refl)
split a false h = absurd (ground arith)

differs-shown : (a b : View) → differs a b ≡ false → shown a ≡ shown b
unfolding differs shown
differs-shown a b h =
    let (h₈, second) = split _ (eq_ℤ (quot a.position_ms 1000) (quot b.position_ms 1000)) h in
    let (h₇, duration) = split _ (eq_ℤ a.duration_ms b.duration_ms) h₈ in
    let (h₆, progress) = split _ (eq_bool a.show_progress b.show_progress) h₇ in
    let (h₅, pct) = split _ (eq_ℤ a.buffer_pct b.buffer_pct) h₆ in
    let (h₄, green) = split _ (eq_bool a.title_green b.title_green) h₅ in
    let (h₃, ack) = split _ (eq_bool a.ack_active b.ack_active) h₄ in
    let (h₂, key) = split _ (bytes_eq a.cover_key b.cover_key) h₃ in
    let (h₁, status) =
      split (not (bytes_eq a.state_word b.state_word)) (bytes_eq a.status b.status) h₂ in
    let word = split false (bytes_eq a.state_word b.state_word) h₁ in
    λ j. record {
      state_word = (bytes_eq_iff a.state_word b.state_word).0 word.1 j;
      status = (bytes_eq_iff a.status b.status).0 status j;
      cover_key = (bytes_eq_iff a.cover_key b.cover_key).0 key j;
      ack_active = eq_bool→eq a.ack_active b.ack_active ack j;
      title_green = eq_bool→eq a.title_green b.title_green green j;
      buffer_pct = eq_ℤ→eq a.buffer_pct b.buffer_pct pct j;
      show_progress = eq_bool→eq a.show_progress b.show_progress progress j;
      duration_ms = eq_ℤ→eq a.duration_ms b.duration_ms duration j;
      second = eq_ℤ→eq (quot a.position_ms 1000) (quot b.position_ms 1000) second j;
    }

join : (a b : Bool) → a ≡ false → b ≡ true → a || not b ≡ false
join a b p q = rw (p, q) refl

shown-differs : (a b : View) → shown a ≡ shown b → differs a b ≡ false
unfolding differs shown
shown-differs a b e =
    join _ (eq_ℤ (quot a.position_ms 1000) (quot b.position_ms 1000))
      (join _ (eq_ℤ a.duration_ms b.duration_ms)
        (join _ (eq_bool a.show_progress b.show_progress)
          (join _ (eq_ℤ a.buffer_pct b.buffer_pct)
            (join _ (eq_bool a.title_green b.title_green)
              (join _ (eq_bool a.ack_active b.ack_active)
                (join _ (bytes_eq a.cover_key b.cover_key)
                  (join _ (bytes_eq a.status b.status)
                    (join false (bytes_eq a.state_word b.state_word) refl
                      ((bytes_eq_iff a.state_word b.state_word).1 (ap (λ s. s.state_word) e)))
                    ((bytes_eq_iff a.status b.status).1 (ap (λ s. s.status) e)))
                  ((bytes_eq_iff a.cover_key b.cover_key).1 (ap (λ s. s.cover_key) e)))
                (rw (ap (λ s. s.ack_active) e) (eq_bool_refl b.ack_active)))
              (rw (ap (λ s. s.title_green) e) (eq_bool_refl b.title_green)))
            (rw (ap (λ s. s.buffer_pct) e) (eq_ℤ_refl b.buffer_pct)))
          (rw (ap (λ s. s.show_progress) e) (eq_bool_refl b.show_progress)))
        (rw (ap (λ s. s.duration_ms) e) (eq_ℤ_refl b.duration_ms)))
      (rw (ap (λ s. s.second) e) (eq_ℤ_refl (quot b.position_ms 1000)))

-- Two views need no repaint exactly when all that can be seen of them is the same, the position to the
-- second; so the gate is an equivalence of views.
pub differs_iff : (a b : View) → (differs a b ≡ false) ↔ (shown a ≡ shown b)
differs_iff a b = (differs-shown a b, shown-differs a b)
