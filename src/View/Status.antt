-- ===== src/View/Status.antt =====
-- The radio readout.
use casquinha.Prelude.{
  ◌≡◌, refl, arith, Bool, true, false, not, ◌&&◌, Option, none, some, Bytes, codes, if◌then◌else◌,
}
use casquinha.Prelude.Int.{pos, ltb_ℤ}
use casquinha.Now.{Now}
use casquinha.View.{
  Engine, Input, off, tuning, buffering, on_air, snap_playing, given, is_active, eq_ℤ, fact_usable,
}

abbrev pub waiting : Bytes
waiting = codes "waiting for Spotify..."

-- The device that plays is the active one.
abbrev pub device_active : Option Now → Bool
device_active none = false
device_active (some s) = is_active s.device

-- No audio where there should be some: the snapshot plays, and either a usable fact says that the
-- mount is silent though the device is active, or, on air and without a usable fact, nothing has come
-- for three seconds.
abbrev pub anomaly_in : Engine → Input → Bool
anomaly_in off i = false
anomaly_in tuning i = false
anomaly_in buffering i =
    snap_playing i.snap && (fact_usable i && eq_ℤ i.live (pos 0) && device_active i.snap)
anomaly_in on_air i =
    snap_playing i.snap
    && (if fact_usable i
        then eq_ℤ i.live (pos 0) && device_active i.snap
        else not (ltb_ℤ i.rx_dry_ticks (pos 180)))

abbrev pub is_anomaly : Input → Bool
is_anomaly i = anomaly_in i.engine i

given_of : (o : Option Now) → snap_playing o ≡ true → given o ≡ true
given_of none h = absurd (ground arith)
given_of (some s) h = refl
