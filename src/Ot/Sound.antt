-- ===== src/Ot/Sound.antt =====
-- What holds of an Open Transport transaction between two calls.
use casquinha.Ot.{
  closed, st_failed, call, open_endpoint, close_provider, remove_notifier, unbind, snd_orderly,
  teardown, fail, teardown, fail, Call, OtTransport,
}
use casquinha.Transport.{fail as posix_fail, TxError}
use casquinha.Prelude.{
  if-both, ◌⊎◌, length, take, if◌then◌else◌, Bytes, Bool, List, ℕ, suc, ◌+◌, ◌≡◌, ◌≤◌, refl, arith,
  true, false, none, some, [], ◌∷◌, ◌++◌,
}

abbrev pub is_opening : Call → Bool
is_opening open_endpoint = true
is_opening _ = false

abbrev pub is_closing : Call → Bool
is_closing close_provider = true
is_closing _ = false

abbrev pub count : (Call → Bool) → List Call → ℕ
count p [] = 0
count p (c ∷ cs) = let n = count p cs in if p c then suc n else n

-- The endpoints that were opened, and those that were closed.
abbrev pub opened : List Call → ℕ
opened = count is_opening

abbrev pub closed_ : List Call → ℕ
closed_ = count is_closing

pub count-append :
    (p : Call → Bool) (xs ys : List Call) → count p (xs ++ ys) ≡ count p xs + count p ys
count-append p [] ys = omega arith
count-append p (x ∷ xs) ys = ground (arith, count-append p xs ys)

-- The line that is sent.
abbrev pub line : OtTransport → Bytes
line t = t.tx.selector ++ 13 ∷ 10 ∷ []

-- No endpoint is lost, nothing is sent that is not the line, and no byte is lost.
pub record IsFair (t : OtTransport) : Type 0 where
  pub balanced : opened t.ledger.calls ≡ closed_ t.ledger.calls + (if t.tx.fd then 1 else 0)
  pub wired : t.ledger.wire ≡ take t.reqoff (line t)
  pub within : t.reqoff ≤ length (line t)
  pub prepared : (t.req ≡ none) × (t.reqoff ≡ 0) ⊎ (t.req ≡ some (line t))
  pub kept : t.ledger.drained ++ (t.tx.data' ++ t.ledger.refused) ≡ t.ledger.received

pub call-IsFair :
    (t : OtTransport) (c : Call)
    → is_opening c ≡ false
    → is_closing c ≡ false
    → IsFair t
    → IsFair (call c t)
call-IsFair t c o k h = record {
  balanced = ground (
    arith,
    h.balanced,
    count-append is_opening t.ledger.calls (c ∷ []),
    count-append is_closing t.ledger.calls (c ∷ []),
  );
  wired = h.wired;
  within = h.within;
  prepared = h.prepared;
  kept = h.kept;
}

closing-IsFair :
    (t : OtTransport)
    → t.tx.fd ≡ true
    → IsFair t
    → IsFair (record (call close_provider t) { tx = closed t.tx })
closing-IsFair t e h = record {
  balanced = ground (
    arith,
    e,
    h.balanced,
    count-append is_opening t.ledger.calls (close_provider ∷ []),
    count-append is_closing t.ledger.calls (close_provider ∷ []),
  );
  wired = h.wired;
  within = h.within;
  prepared = h.prepared;
  kept = h.kept;
}

pub teardown-IsFair : (t : OtTransport) → t.tx.fd ≡ true → IsFair t → IsFair (teardown t)
unfolding teardown
teardown-IsFair t e h = closing-IsFair (call unbind (call remove_notifier t)) e (
    call-IsFair (call remove_notifier t) unbind refl refl
      (call-IsFair t remove_notifier refl refl h))

pub fail-IsFair : (t : OtTransport) (e : TxError) (what : Bytes) → IsFair t → IsFair (fail t e what)
unfolding fail posix_fail
fail-IsFair t e what h =
    if-both IsFair t.tx.fd _ _
      (λ open_. teardown-IsFair _ open_ (call-IsFair _ snd_orderly refl refl fair)) (λ _. fair)
  where
    fair : IsFair (record t { tx = posix_fail t.tx e what; st = st_failed })
    fair = record {
      balanced = h.balanced;
      wired = h.wired;
      within = h.within;
      prepared = h.prepared;
      kept = h.kept;
    }
