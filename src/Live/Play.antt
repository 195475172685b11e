-- ===== src/Live/Play.antt =====
-- src/os9/casquinha.c: playing a row, alone or with what follows it.
use casquinha.App.{esc_into, after_colon}
use casquinha.Live.{
  missing, unprobed, supported, start_command, pos, action_repeat, start_fire, Live,
}
use casquinha.Prelude.Int.{pos_part, negsuc, ℤ}
use casquinha.Alloc.{Memory}
use casquinha.Track.{TrackItem, TrackList}
use casquinha.Prelude.{
  ◌||◌, ◌+◌, length, leb, ltb, get_elem?, if◌then◌else◌, [], drop, ◌++◌, take, none, ◌∷◌, true,
  codes, some, Bytes, List, Option, ℕ,
}

-- `strrchr(uri, ':') + 1`, unless that is empty.
unfoldable pub id_of : Option Bytes → Option Bytes
id_of none = none
id_of (some u) = elim (after_colon u) [
  | none ↦ none
  | some [] ↦ none
  | some (c ∷ cs) ↦ some (c ∷ cs)
]

-- The loop over the rows that follow: what is written behind offset `o`, after `n` ids.
unfoldable pub more_ids : ℕ → ℕ → List TrackItem → Bytes
more_ids o n [] = []
more_ids o n (x ∷ xs) = elim (id_of x.uri) [
  | none ↦ if leb 24 n then [] else more_ids o n xs
  | some id ↦
      if leb 24 n || leb 900 (o + length id + 16)
      then []
      else b',' ∷ id ++ more_ids (o + 1 + length id) (n + 1) xs
]

-- The selector in its 900 bytes, whose first 26 are the path; `none` when the first id alone passes
-- their end, so that the last `snprintf` writes behind them.
unfoldable pub play_from_selector : Bytes → List TrackItem → Option Bytes
play_from_selector id rest =
    let o = 26 + length id in
    if ltb 900 o
    then none
    else some (
        take 899
          (codes "/spot/api/1/play/from?ids=" ++ id ++ more_ids o 1 rest ++ codes "&offset=0"))

-- `PlayItem` of a row that has a uri
unfoldable pub play_item : Memory → ℕ → Bytes → Live → Live × Memory
play_item m now uri l =
    start_fire m now (take 159 (codes "/spot/play?uri=" ++ esc_into uri 128 true)) l

-- The uri of a row.
unfoldable pub row_uri : TrackList → ℤ → Option Bytes
row_uri items (negsuc n) = none
row_uri items (pos i) = elim (get_elem? items.items i) [ none ↦ none | some x ↦ x.uri ]

-- The command of `PlayFrom`.
unfoldable pub send_play : Memory → ℕ → Bytes → Option Bytes → Live → Live × Memory
send_play m now uri none l = (record l { overrun = true }, m)
send_play m now uri (some sel) l =
    let (l', swallowed) = action_repeat now sel (record l { fallback_uri = take 127 uri }) in
    if swallowed then (l', m) else start_command m sel l'

-- `PlayFrom` on a server that may know the command.
unfoldable pub play_ids : Memory → ℕ → Bytes → List TrackItem → Live → Live × Memory
play_ids m now uri rest l = elim l.cmd [
  | some c ↦ (l, m)
  | none ↦ elim (id_of (some uri)) [
    | none ↦ play_item m now uri l
    | some id ↦ send_play m now uri (play_from_selector id rest) l
  ]
]

-- `PlayFrom` of a row that has a uri and of the rows that follow it.
unfoldable pub play_uri : Memory → ℕ → Bytes → List TrackItem → Live → Live × Memory
play_uri m now uri rest l = elim l.native_play [
  | missing ↦ play_item m now uri l
  | unprobed ↦ play_ids m now uri rest l
  | supported ↦ play_ids m now uri rest l
]

-- `PlayFrom`
unfoldable pub play_from : Memory → ℕ → TrackList → ℤ → Option TrackList → Live → Live × Memory
play_from m now items row cont l = elim (row_uri items row) [
  | none ↦ (l, m)
  | some uri ↦
      play_uri m now uri
        (elim cont [ some c ↦ c.items | none ↦ drop (pos_part row + 1) items.items ]) l
]
