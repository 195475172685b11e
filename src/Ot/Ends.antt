-- ===== src/Ot/Ends.antt =====
-- A transaction between two polls: what its state, its status and its endpoint say of each other.
use casquinha.Ot.Sound.{fail-IsFair, teardown-IsFair, line, IsFair}
use casquinha.Transport.{fail as posix_fail, TxError, Status, running, done, failed, no_error}
use casquinha.Prelude.{
  arith, inl, inr, ◌⊎◌, ◌≢◌, not, Bytes, ◌&&◌, Bool, ◌≡◌, refl, true, false, [], if-both,
}
use casquinha.Ot.{
  teardown, fail, finish, OtTransport, State, st_connecting, st_sending, st_receiving, st_done,
  st_failed,
}

-- The status that a state stands for.
abbrev pub status_of : State → Status
status_of st_done = done
status_of st_failed = failed
status_of _ = running

-- The states of an open endpoint.
abbrev pub is_live : State → Bool
is_live st_connecting = true
is_live st_sending = true
is_live st_receiving = true
is_live _ = false

-- The states after the whole line.
abbrev pub is_after : State → Bool
is_after st_receiving = true
is_after st_done = true
is_after _ = false

abbrev pub is_failed : State → Bool
is_failed st_failed = true
is_failed _ = false

-- No error is recorded.
abbrev pub IsClean : OtTransport → Type 0
IsClean t = (t.tx.error ≡ no_error) × (t.tx.message ≡ [])

pub record IsSound (t : OtTransport) : Type 0 where
  pub fair : IsFair t
  pub ended : t.tx.status ≡ status_of t.st
  pub opened : t.tx.fd ≡ (is_live t.st && not t.tx.cancelled)
  pub blamed : (t.st ≡ st_failed) × (t.tx.error ≢ no_error) ⊎ (is_failed t.st ≡ false) × IsClean t
  pub sent : is_after t.st ≡ true → t.ledger.wire ≡ line t
  pub lossless : is_failed t.st ≡ false → t.ledger.refused ≡ []

-- A transaction in the midst of a slice: nothing has gone wrong with it.
pub record IsAlive (t : OtTransport) : Type 0 where
  pub fair : IsFair t
  pub clean : IsClean t
  pub fd_open : t.tx.fd ≡ true
  pub status_running : t.tx.status ≡ running
  pub not_cancelled : t.tx.cancelled ≡ false
  pub lossless : t.ledger.refused ≡ []

pub fail-IsSound :
    (t : OtTransport) (e : TxError) (what : Bytes)
    → e ≢ no_error
    → IsFair t
    → IsSound (fail t e what)
unfolding fail teardown posix_fail
fail-IsSound t e what bad h =
    let kept = fail-IsFair t e what h in
    if-both (λ t'. IsFair t' → IsSound t') t.tx.fd _ _
      (λ _ f. record {
        fair = f;
        ended = refl;
        opened = refl;
        blamed = inl (refl, bad);
        sent = λ q. absurd (ground arith);
        lossless = λ q. absurd (ground arith);
      })
      (λ shut f. record {
        fair = f;
        ended = refl;
        opened = shut;
        blamed = inl (refl, bad);
        sent = λ q. absurd (ground arith);
        lossless = λ q. absurd (ground arith);
      })
      kept

pub finish-IsSound : (t : OtTransport) → IsAlive t → t.ledger.wire ≡ line t → IsSound (finish t)
unfolding finish teardown
finish-IsSound t h w = record {
  fair = record {
    balanced = f.balanced;
    wired = f.wired;
    within = f.within;
    prepared = f.prepared;
    kept = f.kept;
  };
  ended = refl;
  opened = refl;
  blamed = inr (refl, h.clean);
  sent = λ _. w;
  lossless = λ _. h.lossless;
}
  where
    f : IsFair (teardown t)
    f = teardown-IsFair t h.fd_open h.fair
