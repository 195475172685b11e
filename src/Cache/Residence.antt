-- ===== src/Cache/Residence.antt =====
-- How long an entry stays, and that no payload is lost.
use Prim.Native.Nat.{zero}
use mathlib.Core.List.{Perm, perm_append_comm}
use mathlib.Core.List.Perm
use casquinha.Prelude.{
  Bool, ap, take, subst, inr, inl, ◌∙◌, length-window, Bool-cases, none, some, append_assoc,
  append-nil, ◌==◌, bytes_eq_refl, false, List, sym, ℕ, suc, ◌+◌, ◌-◌, ◌≤◌, true, Option, [], ◌∷◌,
  ◌++◌, if◌then◌else◌, length, length-append, Bytes, bytes_eq, ◌≡◌, refl, arith,
}
use casquinha.Cache.{
  find_from, key_find, empty_slot, key_copy, has, put, some, Cache, Slot, slots_max,
}
use casquinha.Cache.Fifo.{Fifo}
use casquinha.Cache.Fifo
use casquinha.Cache.Refine.{IsValid, put_refines, lookup_refines, view}

take_twice : (n : ℕ) (xs : Bytes) → take n (take n xs) ≡ take n xs
take_twice zero xs = refl
take_twice (suc n) [] = refl
take_twice (suc n) (x ∷ xs) = ap (λ r. x ∷ r) (take_twice n xs)

-- A key that was cut to the buffer's 63 bytes before is the same key.
pub has-cut : {V : Type 0} (c : Cache V) (id : Bytes) → has c (some (take 63 id)) ≡ has c (some id)
unfolding has key_find key_copy
has-cut c id =
    ap (λ k. elim (find_from c.slots k 0 c.used) as (λ x. Bool) [ none ↦ false | some i ↦ true ])
      (take_twice 63 id)

module _ {V : Type 0} where
  -- The entries in front of the one with key `k`.
  abbrev older : Fifo V → Bytes → ℕ
  older [] k = 0
  older (s ∷ q) k = if bytes_eq s.key k then 0 else suc (older q k)

  replace_keeps :
      (q : Fifo V) (j k : Bytes) (v : Option V)
      → (Fifo.has (Fifo.replace q j v) k ≡ Fifo.has q k)
        × (older (Fifo.replace q j v) k ≡ older q k)
        × (length (Fifo.replace q j v) ≡ length q)
  unfolding Fifo.has Fifo.replace
  replace_keeps [] j k v = (refl, refl, refl)
  replace_keeps (s ∷ q) j k v = ground (arith, replace_keeps q j k v)

  append_keeps :
      (q : Fifo V) (k : Bytes) (s : Slot V)
      → Fifo.has q k ≡ true
      → (Fifo.has (q ++ s ∷ []) k ≡ true) × (older (q ++ s ∷ []) k ≡ older q k)
  unfolding Fifo.has
  append_keeps [] k s h = cc
  append_keeps (x ∷ q) k s h = ground (arith, append_keeps q k s)

  -- `n` more insertions cannot push the entry of `k` out.
  record Stays (q : Fifo V) (k : Bytes) (n : ℕ) : Type 0 where
    there : Fifo.has q k ≡ true
    bounded : length q ≤ slots_max
    room : n ≤ older q k + (slots_max - length q)

  put-Stays :
      (q : Fifo V) (k j : Bytes) (v : Option V) (n : ℕ)
      → Stays q k (suc n)
      → Stays (Fifo.put q j v).0 k n
  unfolding Fifo.has Fifo.put Fifo.take_oldest
  put-Stays [] k j v n h = ground arith
  put-Stays (s ∷ q) k j v n h =
      let e : Slot V = record { key = j; val = v } in
      ground (
        arith,
        replace_keeps (s ∷ q) j k v,
        append_keeps q k e,
        append_keeps (s ∷ q) k e,
        length-append q (e ∷ []),
        length-append (s ∷ q) (e ∷ []),
      )

  older-append_self :
      (q : Fifo V) (k : Bytes) (v : Option V)
      → Fifo.has q k ≡ false
      → (Fifo.has (q ++ record { key = k; val = v } ∷ []) k ≡ true)
        × (older (q ++ record { key = k; val = v } ∷ []) k ≡ length q)
  unfolding Fifo.has
  older-append_self [] k v h = rw (bytes_eq_refl k) (refl, refl)
  older-append_self (s ∷ q) k v h = ground (arith, older-append_self q k v)

  put-Stays_fresh :
      (q : Fifo V) (k : Bytes) (v : Option V)
      → length q ≤ slots_max
      → Fifo.has q k ≡ false
      → Stays (Fifo.put q k v).0 k 7
  unfolding Fifo.has Fifo.put Fifo.take_oldest
  put-Stays_fresh [] k v b h = ground (arith, bytes_eq_refl k)
  put-Stays_fresh (s ∷ q) k v b h =
      let e : Slot V = record { key = k; val = v } in
      ground (
        arith,
        older-append_self q k v,
        older-append_self (s ∷ q) k v,
        length-append q (e ∷ []),
        length-append (s ∷ q) (e ∷ []),
      )

  -- Further insertions, their displaced payloads dropped.
  abbrev pub puts : Cache V → List (Option Bytes × Option V) → Cache V
  puts c [] = c
  puts c ((key, val) ∷ rest) = puts (put c key val).0 rest

  Stays-puts :
      (c : Cache V) (key : Option Bytes) (rest : List (Option Bytes × Option V))
      → IsValid c
      → Stays (view c) (key_copy key) (length rest)
      → has (puts c rest) key ≡ true
  Stays-puts c key [] v s = (lookup_refines c key).0 ∙ s.there
  Stays-puts c key ((j, val) ∷ rest) v s =
      let refines = put_refines c j val v in
      Stays-puts (put c j val).0 key rest refines.2 (
        subst (λ q. Stays q (key_copy key) (length rest)) (sym refines.0)
          (put-Stays (view c) (key_copy key) (key_copy j) val (length rest) s))

  -- In a valid cache a key stored for the first time is still known after up to seven more
  -- insertions of any keys, whatever its payload: what was tried, found or not, is not fetched
  -- again.
  pub has-puts :
      (c : Cache V) (key : Option Bytes) (val : Option V) (rest : List (Option Bytes × Option V))
      → IsValid c
      → has c key ≡ false
      → length rest ≤ 7
      → has (puts (put c key val).0 rest) key ≡ true
  has-puts c key val rest v new short =
      let refines = put_refines c key val v in
      let len = length-window c.slots (empty_slot V) 0 c.used in
      let fresh : Stays (Fifo.put (view c) (key_copy key) val).0 (key_copy key) 7 =
        put-Stays_fresh (view c) (key_copy key) val (omega (arith, len))
          (sym (lookup_refines c key).0 ∙ new) in
      Stays-puts (put c key val).0 key rest refines.2
        (subst (λ q. Stays q (key_copy key) (length rest)) (sym refines.0) (weaken _ _ fresh))
    where
      weaken : (q : Fifo V) (k : Bytes) → Stays q k 7 → Stays q k (length rest)
      weaken q k s = record { there = s.there; bounded = s.bounded; room = omega arith }

  -- The payloads that the cache owns.
  abbrev pub opt : Option V → List V
  opt none = []
  opt (some x) = x ∷ []

  abbrev pub payloads : Fifo V → List V
  payloads [] = []
  payloads (s ∷ q) = opt s.val ++ payloads q

  payloads-append : (p q : Fifo V) → payloads (p ++ q) ≡ payloads p ++ payloads q
  payloads-append [] q = refl
  payloads-append (s ∷ p) q = rw (payloads-append p q) (sym (append_assoc (opt s.val) _ _))

  swap_front : (a b c : List V) → Perm (a ++ (b ++ c)) (b ++ (a ++ c))
  swap_front a b c =
      rw (← append_assoc a b c, ← append_assoc b a c) (Perm.append_right c (perm_append_comm a b))

  payloads-replace :
      (q : Fifo V) (k : Bytes) (v : Option V)
      → Fifo.has q k ≡ true
      → Perm (opt (Fifo.get q k) ++ payloads (Fifo.replace q k v)) (opt v ++ payloads q)
  unfolding Fifo.has Fifo.get Fifo.replace
  payloads-replace [] k v h = absurd (cc)
  payloads-replace (s ∷ q) k v h = elim (Bool-cases (bytes_eq s.key k)) [
    | inl hit ↦ rw hit (swap_front (opt s.val) (opt v) (payloads q))
    | inr miss ↦ rw miss (
        Perm.trans (swap_front (opt (Fifo.get q k)) (opt s.val) (payloads (Fifo.replace q k v))) (
          Perm.trans (Perm.append_left (opt s.val) (payloads-replace q k v (rw miss at h)))
            (swap_front (opt s.val) (opt v) (payloads q))))
  ]

  behind :
      (q : Fifo V) (k : Bytes) (v : Option V)
      → Perm (payloads (q ++ record { key = k; val = v } ∷ [])) (opt v ++ payloads q)
  behind q k v =
      rw (payloads-append q (record { key = k; val = v } ∷ []), append-nil (opt v))
        (perm_append_comm (payloads q) (opt v))

  put-payloads :
      (q : Fifo V) (k : Bytes) (v : Option V)
      → Perm (opt (Fifo.put q k v).1 ++ payloads (Fifo.put q k v).0) (opt v ++ payloads q)
  unfolding Fifo.put Fifo.take_oldest
  put-payloads q k v = elim (Bool-cases (Fifo.has q k)) [
    | inl hit ↦ rw hit (payloads-replace q k v hit)
    | inr miss ↦ rw miss (elim (Bool-cases (length q == slots_max)) [
      | inl full ↦ rw full (oldest_out q)
      | inr room ↦ rw room (behind q k v)
    ])
  ]
    where
      oldest_out :
          (q : Fifo V)
          → Perm
              (opt (Fifo.take_oldest q).1
                ++ payloads ((Fifo.take_oldest q).0 ++ record { key = k; val = v } ∷ []))
              (opt v ++ payloads q)
      oldest_out [] = behind [] k v
      oldest_out (s ∷ q) =
          Perm.trans (Perm.append_left (opt s.val) (behind q k v))
            (swap_front (opt s.val) (opt v) (payloads q))

  -- Of a valid cache, `cq_cache_put` loses no payload and makes none up: those in the cache before it and the one put
  -- in are, in some order, those in the cache after it and the one that it returns.
  pub put-conserves :
      (c : Cache V) (key : Option Bytes) (val : Option V)
      → IsValid c
      → Perm
          (opt (put c key val).1 ++ payloads (view (put c key val).0))
          (opt val ++ payloads (view c))
  put-conserves c key val v =
      let refines = put_refines c key val v in
      rw (refines.0, refines.1) (put-payloads (view c) (key_copy key) val)
