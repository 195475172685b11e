-- ===== src/Mp3/Sync.antt =====
-- `cq_mp3_sync` finds the first header that the one it predicts confirms.
use casquinha.Prelude.{
  subst, ℕ, suc, zero, ◌≡◌, refl, ◌+◌, ◌≤◌, arith, Bool-cases, Option-cases, Bytes, length, drop,
  Option, none, some, [], ◌∷◌, ◌==◌, true, false, ltb, inl, inr, ◌⊎◌,
}
use casquinha.Mp3.{Frame, parse, confirms, sync_from, sync}

-- At index `i` stands a header whose frame, and four bytes after it, the buffer holds, and the header
-- after that frame is of the same stream.
pub record IsConfirmed (buf : Bytes) (i : ℕ) (f : Frame) : Type 0 where
  pub header : parse (drop i buf) ≡ some f
  pub staged : i + f.frame_bytes + 4 ≤ length buf
  pub confirmed : confirms (drop i buf) f ≡ true

drop-IsConfirmed :
    (c : ℕ) (cs : Bytes) (k : ℕ) (f : Frame) → IsConfirmed cs k f → IsConfirmed (c ∷ cs) (suc k) f
drop-IsConfirmed c cs k f h = record {
  header = h.header;
  staged = omega (arith, h.staged);
  confirmed = h.confirmed;
}

Sound : ℕ → Bytes → Option (ℕ × Frame) → Type 0
Sound base rest none = Unit
Sound base rest (some (i, f)) = (k : ℕ) × (i ≡ base + k) × IsConfirmed rest k f

Sound-later :
    (base : ℕ) (c : ℕ) (cs : Bytes) (out : Option (ℕ × Frame))
    → Sound (base + 1) cs out
    → Sound base (c ∷ cs) out
unfolding Sound
Sound-later base c cs none h = tt
Sound-later base c cs (some (i, f)) h =
    (suc h.0, omega (arith, h.1), drop-IsConfirmed c cs h.0 f h.2)

-- The head of the buffer ends the search, is the answer, or is passed over.
sync_from-cases :
    (base : ℕ) (c : ℕ) (cs : Bytes)
    → (sync_from base (c ∷ cs) ≡ none)
      ⊎ ((a : Frame) × IsConfirmed (c ∷ cs) 0 a × (sync_from base (c ∷ cs) ≡ some (base, a)))
      ⊎ (sync_from base (c ∷ cs) ≡ sync_from (base + 1) cs)
unfolding sync_from
sync_from-cases base c cs = (elim (Bool-cases (ltb (length (c ∷ cs)) 4)) [
  | inl short ↦ rw (short, sync_from) (inl refl)
  | inr long ↦
      rw (long, sync_from)
        (elim (Bool-cases (c == 0xff)) [
          | inr other ↦ rw other (inr (inr refl))
          | inl lead ↦ rw lead (elim (Option-cases (parse (c ∷ cs))) [
            | inl nothing ↦ rw nothing (inr (inr refl))
            | inr (a, e) ↦ rw e (elim (Bool-cases (ltb (length (c ∷ cs)) (a.frame_bytes + 4))) [
              | inl short ↦ rw short (inl refl)
              | inr whole ↦ rw whole (elim (Bool-cases (confirms (c ∷ cs) a)) [
                | inl same ↦ rw same (
                    inr (
                      inl
                        (a, record { header = e; staged = ground arith; confirmed = same }, refl)))
                | inr other ↦ rw other (inr (inr refl))
              ])
            ])
          ])
        ])
])

sync_from-Sound : (base : ℕ) (rest : Bytes) → Sound base rest (sync_from base rest)
unfolding Sound sync_from
sync_from-Sound base [] = tt
sync_from-Sound base (c ∷ cs) = elim (sync_from-cases base c cs) [
  | inl stop ↦ rw stop tt
  | inr (inl (a, h, e)) ↦ rw e (0, omega arith, h)
  | inr (inr e) ↦ rw e (Sound-later base c cs _ (sync_from-Sound (base + 1) cs))
]

parse-lead : (c : ℕ) (cs : Bytes) (f : Frame) → parse (c ∷ cs) ≡ some f → (c == 0xff) ≡ true
unfolding parse
parse-lead c cs f h = ground arith

sync_from-here :
    (base : ℕ) (c : ℕ) (cs : Bytes) (a : Frame)
    → IsConfirmed (c ∷ cs) 0 a
    → sync_from base (c ∷ cs) ≡ some (base, a)
unfolding sync_from
sync_from-here base c cs a h =
    let long : ltb (length (c ∷ cs)) 4 ≡ false = ground (arith, h.staged) in
    let whole : ltb (length (c ∷ cs)) (a.frame_bytes + 4) ≡ false = ground (arith, h.staged) in
    rw (long, parse-lead c cs a h.header) (rw h.header (rw (whole, h.confirmed) refl))

AtMost : ℕ → Option (ℕ × Frame) → Type 0
AtMost bound none = Unit
AtMost bound (some (i, f)) = i ≤ bound

tail-IsConfirmed :
    (c : ℕ) (cs : Bytes) (k : ℕ) (f : Frame) → IsConfirmed (c ∷ cs) (suc k) f → IsConfirmed cs k f
tail-IsConfirmed c cs k f h = record {
  header = h.header;
  staged = omega (arith, h.staged);
  confirmed = h.confirmed;
}

sync_from-AtMost :
    (base : ℕ) (rest : Bytes) (k : ℕ) (f : Frame)
    → IsConfirmed rest k f
    → AtMost (base + k) (sync_from base rest)
unfolding AtMost sync_from
sync_from-AtMost base [] k f h = tt
sync_from-AtMost base (c ∷ cs) zero f h = rw (sync_from-here base c cs f h) (omega arith)
sync_from-AtMost base (c ∷ cs) (suc k) f h = elim (sync_from-cases base c cs) [
  | inl stop ↦ rw stop tt
  | inr (inl (a, h, e)) ↦ rw e (omega arith)
  | inr (inr e) ↦
      let shift : base + suc k ≡ base + 1 + k = omega arith in
      rw (e, shift) (sync_from-AtMost (base + 1) cs k f (tail-IsConfirmed c cs k f h))
]

pub sync-first :
    (buf : Bytes) (i : ℕ) (f : Frame)
    → sync buf ≡ some (i, f)
    → IsConfirmed buf i f × ((k : ℕ) (g : Frame) → IsConfirmed buf k g → i ≤ k)
unfolding sync Sound AtMost
sync-first buf i f h = (sound, λ k g c. below k g c)
  where
    at_i : Sound 0 buf (some (i, f))
    at_i = subst (Sound 0 buf) h (sync_from-Sound 0 buf)

    sound : IsConfirmed buf i f
    sound = let e : at_i.0 ≡ i = omega (arith, at_i.1) in subst (λ j. IsConfirmed buf j f) e at_i.2

    below : (k : ℕ) (g : Frame) → IsConfirmed buf k g → i ≤ k
    below k g c =
        let b : AtMost (0 + k) (some (i, f)) =
          subst (AtMost (0 + k)) h (sync_from-AtMost 0 buf k g c) in
        omega (arith, b)
