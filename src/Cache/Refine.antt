-- ===== src/Cache/Refine.antt =====
-- The array of eight slots refines the FIFO of its entries.
use casquinha.Prelude.{
  ℕ, zero, suc, ◌+◌, ◌-◌, ◌<◌, ◌≤◌, true, false, Option, none, some, List, [], ◌∷◌, ◌++◌, ◌==◌,
  length, Bytes, bytes_eq, get_or, set, length-set, get_or-set_self, get_or-set_ne, window,
  window_ext, window-snoc, length-window, ◌≡◌, refl, sym, subst, ap, ap₂, arith, Bool-cases,
  Option-cases, inl, inr, ◌∙◌,
}
use casquinha.Cache.{
  Slot, Cache, empty_slot, slots_max, find_from, key_find, key_copy, shift_from, shift_out_oldest,
  append, has, get, put, take_oldest,
}
use casquinha.Cache.Shift.{length-shift_from, get_or-shift_from}
use casquinha.Cache.Fifo.{Fifo}
use casquinha.Cache.Fifo

-- The entries, oldest first.
abbrev pub view : {V : Type 0} → Cache V → Fifo V
view {V} c = window c.slots (empty_slot V) 0 c.used

pub record IsValid {V : Type 0} (c : Cache V) : Type 0 where
  pub storage : length c.slots ≡ slots_max
  pub within : c.used ≤ slots_max

module _ {V : Type 0} where
  window-set_before :
      (xs : List (Slot V)) (j i n : ℕ) (s : Slot V)
      → j < i
      → window (set xs j s) (empty_slot V) i n ≡ window xs (empty_slot V) i n
  window-set_before xs j i n s h =
      window_ext (set xs j s) xs (empty_slot V) i i n
        (λ k lt. get_or-set_ne xs j (i + k) s (empty_slot V) (omega arith))

  window-set_after :
      (xs : List (Slot V)) (j i n : ℕ) (s : Slot V)
      → i + n ≤ j
      → window (set xs j s) (empty_slot V) i n ≡ window xs (empty_slot V) i n
  window-set_after xs j i n s h =
      window_ext (set xs j s) xs (empty_slot V) i i n
        (λ k lt. get_or-set_ne xs j (i + k) s (empty_slot V) (omega arith))

  -- What `key_find` tells of the entries from `i` on.
  abbrev Finds : List (Slot V) → Bytes → ℕ → ℕ → Option ℕ → Type 0
  Finds xs k i n none =
      (Fifo.has (window xs (empty_slot V) i n) k ≡ false)
      × (Fifo.get (window xs (empty_slot V) i n) k ≡ none)
  Finds xs k i n (some j) =
      (i ≤ j)
      × (j < i + n)
      × (Fifo.has (window xs (empty_slot V) i n) k ≡ true)
      × (Fifo.get (window xs (empty_slot V) i n) k ≡ (get_or xs j (empty_slot V)).val)

  find_from-Finds : (xs : List (Slot V)) (k : Bytes) (i n : ℕ) → Finds xs k i n (find_from xs k i n)
  unfolding find_from Fifo.has Fifo.get
  find_from-Finds xs k i zero = (refl, refl)
  find_from-Finds xs k i (suc n) = ground (arith, find_from-Finds xs k (suc i) n)

  replace-find_from :
      (xs : List (Slot V)) (k : Bytes) (i n j : ℕ) (v : Option V)
      → i + n ≤ length xs
      → find_from xs k i n ≡ some j
      → Fifo.replace (window xs (empty_slot V) i n) k v
        ≡ window (set xs j (record (get_or xs j (empty_slot V)) { val = v })) (empty_slot V) i n
  unfolding find_from Fifo.replace
  replace-find_from xs k i zero j v h e = cc
  replace-find_from xs k i (suc n) j v h e =
      elim (Bool-cases (bytes_eq (get_or xs i (empty_slot V)).key k)) [
        | inl hit ↦ here hit (rw hit at e)
        | inr miss ↦
            later miss (rw miss at e) (λ t. replace-find_from xs k (suc i) n j v (omega arith) t)
      ]
    where
      d : Slot V
      d = empty_slot V

      new : ℕ → Slot V
      new p = record (get_or xs p d) { val = v }

      here :
          bytes_eq (get_or xs i d).key k ≡ true
          → some i ≡ some j
          → Fifo.replace (window xs d i (suc n)) k v ≡ window (set xs j (new j)) d i (suc n)
      here hit same =
          let at : i ≡ j = cc in
          subst
            (λ p. Fifo.replace (window xs d i (suc n)) k v ≡ window (set xs p (new p)) d i (suc n))
            at
            (rw (hit, get_or-set_self xs i (new i) d (omega arith))
              (ap (◌∷◌ (new i)) (sym (window-set_before xs i (suc i) n (new i) (omega arith)))))

      later :
          bytes_eq (get_or xs i d).key k ≡ false
          → find_from xs k (suc i) n ≡ some j
          → (find_from xs k (suc i) n ≡ some j
              → Fifo.replace (window xs d (suc i) n) k v ≡ window (set xs j (new j)) d (suc i) n)
          → Fifo.replace (window xs d i (suc n)) k v ≡ window (set xs j (new j)) d i (suc n)
      later miss there rest =
          let found : Finds xs k (suc i) n (some j) =
            rw there at (find_from-Finds xs k (suc i) n) in
          rw (miss, get_or-set_ne xs j i (new j) d (omega (arith, found.0)))
            (ap (◌∷◌ (get_or xs i d)) (rest there))

  window-shift_from :
      (xs : List (Slot V)) (n : ℕ)
      → suc n ≤ length xs
      → window (shift_from xs 1 n) (empty_slot V) 0 n ≡ window xs (empty_slot V) 1 n
  window-shift_from xs n h =
      window_ext (shift_from xs 1 n) xs (empty_slot V) 0 1 n
        (λ k lt. ground (arith, get_or-shift_from xs 1 n (0 + k)))

  shifted :
      (xs : List (Slot V)) (u n : ℕ)
      → u ≡ suc n
      → u ≤ length xs
      → (window (shift_from xs 1 (u - 1)) (empty_slot V) 0 (u - 1)
          ≡ (Fifo.take_oldest (window xs (empty_slot V) 0 u)).0)
        × ((get_or xs 0 (empty_slot V)).val ≡ (Fifo.take_oldest (window xs (empty_slot V) 0 u)).1)
  unfolding Fifo.take_oldest
  shifted xs u n e h =
      let m : u - 1 ≡ n = omega arith in (rw (m, e) (window-shift_from xs n (omega arith)), rw e)

  shift_out_oldest_refines :
      (c : Cache V) (n : ℕ)
      → IsValid c
      → c.used ≡ suc n
      → (view (shift_out_oldest c).0 ≡ (Fifo.take_oldest (view c)).0)
        × ((shift_out_oldest c).1 ≡ (Fifo.take_oldest (view c)).1)
        × IsValid (shift_out_oldest c).0
  unfolding shift_out_oldest
  shift_out_oldest_refines c n v e =
      let parts = shifted c.slots c.used n e (omega arith) in
      (
        parts.0,
        parts.1,
        record {
          storage = length-shift_from c.slots 1 (c.used - 1) ∙ v.storage;
          within = omega arith;
        },
      )

  shift_out_oldest-used : (c : Cache V) → (shift_out_oldest c).0.used ≡ c.used - 1
  unfolding shift_out_oldest
  shift_out_oldest-used c = refl

  appended :
      (xs : List (Slot V)) (u : ℕ) (s : Slot V)
      → u < length xs
      → window (set xs u s) (empty_slot V) 0 (u + 1) ≡ window xs (empty_slot V) 0 u ++ s ∷ []
  appended xs u s h =
      let m : u + 1 ≡ suc u = omega arith in
      let z : 0 + u ≡ u = omega arith in
      rw m (
        window-snoc (set xs u s) (empty_slot V) 0 u
        ∙ ap₂ (λ (q : Fifo V) (t : Slot V). q ++ t ∷ []) (window-set_after xs u 0 u s (omega arith))
            (rw z (get_or-set_self xs u s (empty_slot V) h)))

  append_refines :
      (c : Cache V) (key : Option Bytes) (val : Option V)
      → IsValid c
      → c.used < slots_max
      → (view (append c key val) ≡ view c ++ record { key = key_copy key; val = val } ∷ [])
        × IsValid (append c key val)
  unfolding append
  append_refines c key val v h =
      let s : Slot V = record { key = key_copy key; val = val } in
      (
        appended c.slots c.used s (omega arith),
        record { storage = length-set c.slots c.used s ∙ v.storage; within = omega arith },
      )

  -- `cq_cache_has` and `cq_cache_get` answer as the FIFO does, on the key as it is stored.
  pub lookup_refines :
      (c : Cache V) (key : Option Bytes)
      → (has c key ≡ Fifo.has (view c) (key_copy key))
        × (get c key ≡ Fifo.get (view c) (key_copy key))
  unfolding has get key_find
  lookup_refines c key = ground (arith, find_from-Finds c.slots (key_copy key) 0 c.used)

  take_oldest_at :
      (c : Cache V) (n : ℕ)
      → IsValid c
      → c.used ≡ n
      → (view (take_oldest c).0 ≡ (Fifo.take_oldest (view c)).0)
        × ((take_oldest c).1 ≡ (Fifo.take_oldest (view c)).1)
        × IsValid (take_oldest c).0
  unfolding take_oldest Fifo.take_oldest
  take_oldest_at c zero v e =
      rw e (refl, refl, record { storage = v.storage; within = omega arith })
  take_oldest_at c (suc n) v e =
      let busy : (c.used == 0) ≡ false = ground arith in rw busy (shift_out_oldest_refines c n v e)

  -- `cq_cache_take_oldest` removes the oldest entry, and returns its payload.
  pub take_oldest_refines :
      (c : Cache V)
      → IsValid c
      → (view (take_oldest c).0 ≡ (Fifo.take_oldest (view c)).0)
        × ((take_oldest c).1 ≡ (Fifo.take_oldest (view c)).1)
        × IsValid (take_oldest c).0
  take_oldest_refines c v = take_oldest_at c c.used v refl

  put_hit :
      (c : Cache V) (key : Option Bytes) (val : Option V) (j : ℕ)
      → IsValid c
      → key_find c key ≡ some j
      → (view (put c key val).0 ≡ (Fifo.put (view c) (key_copy key) val).0)
        × ((put c key val).1 ≡ (Fifo.put (view c) (key_copy key) val).1)
        × IsValid (put c key val).0
  unfolding put key_find Fifo.put
  put_hit c key val j v e =
      let k = key_copy key in
      let found : Finds c.slots k 0 c.used (some j) =
        rw e at (find_from-Finds c.slots k 0 c.used) in
      ground (
        arith,
        e,
        found,
        replace-find_from c.slots k 0 c.used j val,
        length-set c.slots j (record (get_or c.slots j (empty_slot V)) { val = val }),
      )

  put_miss :
      (c : Cache V) (key : Option Bytes) (val : Option V)
      → IsValid c
      → key_find c key ≡ none
      → (view (put c key val).0 ≡ (Fifo.put (view c) (key_copy key) val).0)
        × ((put c key val).1 ≡ (Fifo.put (view c) (key_copy key) val).1)
        × IsValid (put c key val).0
  unfolding put key_find Fifo.put
  put_miss c key val v e =
      let k = key_copy key in
      let absent : Finds c.slots k 0 c.used none = rw e at (find_from-Finds c.slots k 0 c.used) in
      ground (
        arith,
        e,
        absent,
        length-window c.slots (empty_slot V) 0 c.used,
        shift_out_oldest_refines c 7 v,
        shift_out_oldest-used c,
        append_refines c key val v,
        append_refines (shift_out_oldest c).0 key val,
      )

  -- Of a valid cache, `cq_cache_put` is the FIFO's `put` on the key as it is stored: the same
  -- entries in the same order after it, and the same displaced payload; the cache stays valid.
  pub put_refines :
      (c : Cache V) (key : Option Bytes) (val : Option V)
      → IsValid c
      → (view (put c key val).0 ≡ (Fifo.put (view c) (key_copy key) val).0)
        × ((put c key val).1 ≡ (Fifo.put (view c) (key_copy key) val).1)
        × IsValid (put c key val).0
  put_refines c key val v = elim (Option-cases (key_find c key)) [
    | inl miss ↦ put_miss c key val v miss
    | inr (j, hit) ↦ put_hit c key val j v hit
  ]
