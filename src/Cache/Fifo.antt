-- ===== src/Cache/Fifo.antt =====
-- What the cache promises: a FIFO of at most eight entries, oldest first, one for each key.
use casquinha.Prelude.{
  Bool, true, false, Option, none, List, [], ◌∷◌, ◌++◌, ◌==◌, if◌then◌else◌, length, Bytes,
  bytes_eq,
}
use casquinha.Cache.{Slot, slots_max}

abbrev pub Fifo : Type 0 → Type 0
Fifo V = List (Slot V)

module _ {V : Type 0} where
  unfoldable pub has : Fifo V → Bytes → Bool
  has [] k = false
  has (s ∷ q) k = if bytes_eq s.key k then true else has q k

  -- The payload of a key, `none` if it is absent.
  unfoldable pub get : Fifo V → Bytes → Option V
  get [] k = none
  get (s ∷ q) k = if bytes_eq s.key k then s.val else get q k

  -- A key that is there keeps its age.
  unfoldable pub replace : Fifo V → Bytes → Option V → Fifo V
  replace [] k v = []
  replace (s ∷ q) k v = if bytes_eq s.key k then record s { val = v } ∷ q else s ∷ replace q k v

  unfoldable pub take_oldest : Fifo V → Fifo V × Option V
  take_oldest [] = ([], none)
  take_oldest (s ∷ q) = (q, s.val)

  unfoldable pub put : Fifo V → Bytes → Option V → Fifo V × Option V
  put q k v =
      let entry : Slot V = record { key = k; val = v } in
      if has q k
      then (replace q k v, get q k)
      else if length q == slots_max
      then ((take_oldest q).0 ++ entry ∷ [], (take_oldest q).1)
      else (q ++ entry ∷ [], none)
