-- ===== src/DecRing/Cursors.antt =====
-- A ring under two running 32-bit cursors: writing appends to the bytes between them, reading takes
-- from their front, also when a cursor wraps around.
use Prim.Native.Nat.{◌∣◌}
use native.Mathlib.Nat.{mod-mod_of_dvd, mod-mod}
use casquinha.Prelude.{
  ℕ, ◌+◌, ◌-◌, ◌%◌, ◌^◌, ◌≡◌, sym, ap, ◌∙◌, ◌≤◌, ◌<◌, arith, Bytes, length, take, drop, ◌++◌,
}
use casquinha.DecRing.Wrap.{
  write, wrapped, before_wrap, length-wrapped, wrapped-append, wrapped-mod, wrapped-write,
  wrapped-write_two,
}
use casquinha.DecRing.{add32, sub32}

-- The ring is not empty, its size divides the cursors' range, and the cursors are at most a ring
-- apart.
pub record IsCursors (ring : Bytes) (wr rd : ℕ) : Type 0 where
  pub some_room : 0 < length ring
  pub word : length ring < 2 ^ 32
  pub divides : length ring ∣ 2 ^ 32
  pub wr_word : wr < 2 ^ 32
  pub rd_word : rd < 2 ^ 32
  pub fits : sub32 wr rd ≤ length ring

-- The bytes between the cursors.
unfoldable pub between : Bytes → ℕ → ℕ → Bytes
between ring wr rd = wrapped ring rd (sub32 wr rd)

pub length-between : (ring : Bytes) (wr rd : ℕ) → length (between ring wr rd) ≡ sub32 wr rd
unfolding between
length-between ring wr rd = length-wrapped ring rd (sub32 wr rd)

pub wr-mod :
    (ring : Bytes) (wr rd : ℕ)
    → IsCursors ring wr rd
    → wr % length ring ≡ (rd + sub32 wr rd) % length ring
wr-mod ring wr rd h =
    let wr_lt = h.wr_word in
    let rd_lt = h.rd_word in
    let e : (rd + sub32 wr rd) % 2 ^ 32 ≡ wr = omega arith in
    ap (λ x. x % length ring) (sym e) ∙ mod-mod_of_dvd (length ring) (rd + sub32 wr rd) h.divides

pub sub32-grow :
    (wr rd n : ℕ)
    → wr < 2 ^ 32
    → rd < 2 ^ 32
    → sub32 wr rd + n < 2 ^ 32
    → sub32 (add32 wr n) rd ≡ sub32 wr rd + n
sub32-grow wr rd n a b h = omega arith

pub sub32-shrink :
    (wr rd n : ℕ)
    → wr < 2 ^ 32
    → rd < 2 ^ 32
    → n ≤ sub32 wr rd
    → sub32 wr (add32 rd n) ≡ sub32 wr rd - n
sub32-shrink wr rd n a b h = omega arith

pub IsCursors-grow :
    (ring ring' : Bytes) (wr rd n : ℕ)
    → IsCursors ring wr rd
    → length ring' ≡ length ring
    → sub32 wr rd + n ≤ length ring
    → IsCursors ring' (add32 wr n) rd
IsCursors-grow ring ring' wr rd n h e le = record {
  some_room = omega (arith, h.some_room);
  word = omega (arith, h.word);
  divides = rw e h.divides;
  wr_word = omega arith;
  rd_word = h.rd_word;
  fits = omega (arith, sub32-grow wr rd n h.wr_word h.rd_word (omega (arith, h.word)));
}

pub IsCursors-shrink :
    (ring : Bytes) (wr rd n : ℕ)
    → IsCursors ring wr rd
    → n ≤ sub32 wr rd
    → IsCursors ring wr (add32 rd n)
IsCursors-shrink ring wr rd n h le = record {
  some_room = h.some_room;
  word = h.word;
  divides = h.divides;
  wr_word = h.wr_word;
  rd_word = omega arith;
  fits = omega (arith, h.fits, sub32-shrink wr rd n h.wr_word h.rd_word le);
}

pub between-grow :
    (ring : Bytes) (wr rd : ℕ) (bs : Bytes)
    → IsCursors ring wr rd
    → sub32 wr rd + length bs ≤ length ring
    → wr % length ring + length bs ≤ length ring
    → between (write ring (wr % length ring) bs) (add32 wr (length bs)) rd
      ≡ between ring wr rd ++ bs
unfolding between
between-grow ring wr rd bs h le fits =
    rw (sub32-grow wr rd (length bs) h.wr_word h.rd_word (omega (arith, h.word))) (
      wrapped-write ring rd (sub32 wr rd) (wr % length ring) bs le fits
        (mod-mod wr (length ring) ∙ wr-mod ring wr rd h))

pub between-grow_two :
    (ring : Bytes) (wr rd : ℕ) (bs : Bytes)
    → IsCursors ring wr rd
    → sub32 wr rd + length bs ≤ length ring
    → between
        (write
          (write ring
            (wr % length ring)
            (take (before_wrap (length ring) (wr % length ring) (length bs)) bs))
          0
          (drop (before_wrap (length ring) (wr % length ring) (length bs)) bs))
        (add32 wr (length bs))
        rd
      ≡ between ring wr rd ++ bs
unfolding between
between-grow_two ring wr rd bs h le =
    rw (sub32-grow wr rd (length bs) h.wr_word h.rd_word (omega (arith, h.word)))
      (wrapped-write_two ring rd (sub32 wr rd) wr bs h.some_room le (wr-mod ring wr rd h))

pub between-shrink :
    (ring : Bytes) (wr rd n : ℕ)
    → IsCursors ring wr rd
    → n ≤ sub32 wr rd
    → between ring wr rd ≡ wrapped ring rd n ++ between ring wr (add32 rd n)
unfolding between
between-shrink ring wr rd n h le =
    let count : sub32 wr rd ≡ n + (sub32 wr rd - n) = omega arith in
    let left = sub32-shrink wr rd n h.wr_word h.rd_word le in
    ap (wrapped ring rd) count
    ∙ wrapped-append ring rd n (sub32 wr rd - n)
    ∙ ap (λ t. wrapped ring rd n ++ t)
        (ap (wrapped ring (rd + n)) (sym left)
          ∙ wrapped-mod ring (rd + n) (add32 rd n) (sub32 wr (add32 rd n))
              (sym (mod-mod_of_dvd (length ring) (rd + n) h.divides)))
