-- ===== src/Libc/Division/Log.antt =====
-- `__mesabi_log2i` finds the highest bit.
use native.Mathlib.Nat.{
  div-div-eq-div-mul, pow-suc, one-mul, one-le-pow, zero-add, div-lt_iff_lt-mul, pow-zero,
}
use mes.Base.{
  ℕ, zero, suc, ◌+◌, ◌*◌, ◌/◌, ◌^◌, ◌<◌, ◌≡◌, refl, inl, inr, false, arith, ltb, Bool-cases,
}
use mes.Libc.Division.{log2i_loop, log2i}

pub pow-add : (a n m : ℕ) → a ^ (n + m) ≡ a ^ n * a ^ m
pow-add a zero m = rw (zero-add, pow-zero, one-mul)
pow-add a (suc n) m =
    let e : suc n + m ≡ suc (n + m) = omega arith in
    rw (e, pow-suc a (n + m), pow-suc a n, pow-add a n m) (grind arith)

pub pow-double : (j : ℕ) → 2 ^ 2 ^ suc j ≡ 2 ^ 2 ^ j * 2 ^ 2 ^ j
pow-double j = let e : 2 ^ suc j ≡ 2 ^ j + 2 ^ j = omega (arith, pow-suc 2 j) in rw (e, pow-add)

pub two-pow-pos : (n : ℕ) → 0 < 2 ^ n
two-pow-pos n = one-le-pow n 2 (omega arith)

-- After the loop the bits above `i` are gone from `d`, and the last one is 1.
log2i_loop_lem :
    (j d d0 i : ℕ) → d0 / 2 ^ i ≡ d → 0 < d → d < 2 ^ 2 ^ j → d0 / 2 ^ log2i_loop j d i ≡ 1
unfolding log2i_loop
log2i_loop_lem zero d d0 i e pos lt = omega arith
log2i_loop_lem (suc j) d d0 i e pos lt = elim (Bool-cases (ltb 0 (d / 2 ^ 2 ^ j))) [
  | inl y ↦
      let e' : d0 / 2 ^ (i + 2 ^ j) ≡ d / 2 ^ 2 ^ j =
        rw (pow-add 2 i (2 ^ j), ← div-div-eq-div-mul, e) refl in
      rw y (
        log2i_loop_lem j (d / 2 ^ 2 ^ j) d0 (i + 2 ^ j) e' (ground arith)
          ((div-lt_iff_lt-mul (two-pow-pos (2 ^ j))).1 (rw (pow-double j) at lt)))
  | inr y ↦ rw y (
      log2i_loop_lem j d d0 i e pos (
        rw one-mul at
          ((div-lt_iff_lt-mul (two-pow-pos (2 ^ j))).0 (one_of_zero (d / 2 ^ 2 ^ j) y))))
]
  where
    one_of_zero : (n : ℕ) → ltb 0 n ≡ false → n < 1
    one_of_zero n y = ground arith

-- For a number above 0 `__mesabi_log2i` returns the place of its highest bit.
pub log2i_lem : (d : ℕ) → 0 < d → d < 2 ^ 64 → d / 2 ^ log2i d ≡ 1
unfolding log2i
log2i_lem d pos lt = log2i_loop_lem 6 d d 0 (omega arith) pos lt
