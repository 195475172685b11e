-- ===== src/Cache.antt =====
-- src/cq_cache.c: a FIFO of eight string-keyed slots that holds opaque payloads. Slot `i` of the
-- model is `keys[i]` with `vals[i]`; a key is the C string in its buffer, and a NULL payload or key
-- is `none`. The payload type is the caller's.
pub mod Fifo
pub mod Shift
pub mod Refine
pub mod Residence
mod Tests
use casquinha.Prelude.{
  ℕ, zero, suc, ◌+◌, ◌-◌, Bool, true, false, Option, none, some, List, [], ◌∷◌, ◌==◌, if◌then◌else◌,
  get_or, set, take, replicate, Bytes, bytes_eq,
}

-- `CQ_CACHE_SLOTS` and `CQ_CACHE_KEYMAX`
abbrev pub slots_max : ℕ
slots_max = 8

abbrev pub key_max : ℕ
key_max = 64

pub record Slot (V : Type 0) : Type 0 where
  pub key : Bytes
  pub val : Option V

-- `cq_cache`
pub record Cache (V : Type 0) : Type 0 where
  pub slots : List (Slot V)
  pub used : ℕ

abbrev pub empty_slot : (V : Type 0) → Slot V
empty_slot V = record { key = []; val = none }

-- `key_copy`: what `strncpy` and the final NUL leave in the buffer.
unfoldable pub key_copy : Option Bytes → Bytes
key_copy none = []
key_copy (some src) = take (key_max - 1) src

module _ {V : Type 0} where
  -- The loop of `key_find`, from `i` on for `n` rounds; -1 is `none`.
  unfoldable pub find_from : List (Slot V) → Bytes → ℕ → ℕ → Option ℕ
  find_from slots k i zero = none
  find_from slots k i (suc n) =
      let rest = find_from slots k (suc i) n in
      if bytes_eq (get_or slots i (empty_slot V)).key k then some i else rest

  -- `key_find`
  unfoldable pub key_find : Cache V → Option Bytes → Option ℕ
  key_find c key = find_from c.slots (key_copy key) 0 c.used

  -- `cq_cache_init`
  unfoldable pub init : Cache V
  init = record { slots = replicate slots_max (empty_slot V); used = 0 }

  -- `cq_cache_count`
  pub count : Cache V → ℕ
  count c = c.used

  -- `cq_cache_has`
  unfoldable pub has : Cache V → Option Bytes → Bool
  has c key = elim (key_find c key) [ none ↦ false | some i ↦ true ]

  -- `cq_cache_get`
  unfoldable pub get : Cache V → Option Bytes → Option V
  get c key = elim (key_find c key) [ none ↦ none | some i ↦ (get_or c.slots i (empty_slot V)).val ]

  -- The loop of `shift_out_oldest`, from `i` on for `n` rounds.
  pub shift_from : List (Slot V) → ℕ → ℕ → List (Slot V)
  shift_from slots i zero = slots
  shift_from slots i (suc n) =
      shift_from (set slots (i - 1) (get_or slots i (empty_slot V))) (suc i) n

  -- `shift_out_oldest`
  pub shift_out_oldest : Cache V → Cache V × Option V
  shift_out_oldest c = (
    record c { slots = shift_from c.slots 1 (c.used - 1); used = c.used - 1 },
    (get_or c.slots 0 (empty_slot V)).val,
  )

  -- The miss of `cq_cache_put`: the entry goes behind the last one.
  pub append : Cache V → Option Bytes → Option V → Cache V
  append c key val = record c {
    slots = set c.slots c.used (record { key = key_copy key; val = val });
    used = c.used + 1;
  }

  -- `cq_cache_put`: the cache after the call, and the displaced payload.
  unfoldable pub put : Cache V → Option Bytes → Option V → Cache V × Option V
  put c key val = elim (key_find c key) [
    | some i ↦
        let old = get_or c.slots i (empty_slot V) in
        (record c { slots = set c.slots i (record old { val = val }) }, old.val)
    | none ↦
        let shifted = shift_out_oldest c in
        if c.used == slots_max
        then (append shifted.0 key val, shifted.1)
        else (append c key val, none)
  ]

  -- `cq_cache_take_oldest`
  unfoldable pub take_oldest : Cache V → Cache V × Option V
  take_oldest c = if c.used == 0 then (c, none) else shift_out_oldest c
