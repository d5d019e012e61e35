-- ===== src/Libc/Number/Print.antt =====
-- What `ntoab` prints: its digits fit the buffer, and the first one is 0 only for 0.
use native.Mathlib.Nat.{div-lt_iff_lt-mul, pow-suc, div-eq_of_lt, mod-lt, div-add-mod}
use mes.Base.{
  ℕ, zero, suc, ◌+◌, ◌*◌, ◌/◌, ◌%◌, ◌^◌, ◌≤◌, ◌<◌, ◌≡◌, ap, inl, inr, Bool, true, false, ◌&&◌, some,
  List, [], ◌∷◌, arith, ltb, ◌==◌, if◌then◌else◌, Bool-cases, length, is_negative, add_word,
  neg_word,
}
use mes.Libc.Number.{digit_char, ntoab_loop, put_sign, ntoab}

shrinks : (k u b : ℕ) → 8 ≤ b → u < 8 ^ suc k → u / b < 8 ^ k
shrinks k u b le lt =
    (div-lt_iff_lt-mul {k = b} {x = u} {y = 8 ^ k} (omega arith)).1 (grind (arith, pow-suc 8 k))

-- `m` rounds are enough for a number below 8 ^ (k + 1), which has at most k + 1 digits.
pub ntoab_loop_total :
    (k m u b : ℕ) (p : List ℕ)
    → k < m
    → 8 ≤ b
    → u < 8 ^ suc k
    → (ds : List ℕ) × (ntoab_loop m u b p ≡ some ds) × (length ds ≤ length p + suc k)
unfolding ntoab_loop
ntoab_loop_total k zero u b p more le lt = absurd (omega arith)
ntoab_loop_total zero (suc m) u b p more le lt =
    let small : u < 8 = lt in
    let y : u / b ≡ 0 = div-eq_of_lt (omega arith) in (digit_char (u % b) ∷ p, rw y, omega arith)
ntoab_loop_total (suc k) (suc m) u b p more le lt = elim (Bool-cases (u / b == 0)) [
  | inl y ↦ (digit_char (u % b) ∷ p, rw y, omega arith)
  | inr y ↦
      let (ds, e, f) =
        ntoab_loop_total k m (u / b) b (digit_char (u % b) ∷ p) (omega arith) le
          (shrinks (suc k) u b le lt) in
      (ds, rw y e, omega arith)
]

leading : (u b : ℕ) → 0 < b → (u / b == 0) ≡ true → 0 < u → 0 < u % b
leading u b pos y h =
    let z : u / b ≡ 0 = ground arith in omega (arith, div-add-mod u b, ap (λ (t : ℕ). b * t) z)

nonzero : (u b : ℕ) → (u / b == 0) ≡ false → 0 < u / b
nonzero u b y = ground arith

pub ntoab_loop_head :
    (k u b : ℕ) (p ds : List ℕ)
    → 0 < b
    → ntoab_loop k u b p ≡ some ds
    → (d : ℕ) × (s : List ℕ) × (ds ≡ digit_char d ∷ s) × (d < b) × (0 < u → 0 < d)
unfolding ntoab_loop
ntoab_loop_head zero u b p ds pos e = cc
ntoab_loop_head (suc k) u b p ds pos e = elim (Bool-cases (u / b == 0)) [
  | inl y ↦ (u % b, p, cc (rw y at e), mod-lt u pos, λ h. leading u b pos y h)
  | inr y ↦
      let (d, s, f, lt, nz) =
        ntoab_loop_head k (u / b) b (digit_char (u % b) ∷ p) ds pos (rw y at e) in
      (d, s, f, lt, λ h. nz (nonzero u b y))
]

length-put_sign : (sign : Bool) (p : List ℕ) → length (put_sign sign p) ≤ length p + 1
unfolding put_sign
length-put_sign sign [] = omega arith
length-put_sign sign (c ∷ p) = ground arith

-- For every word and every base of 8 or more the loop of `ntoab` ends within the 23 places of its
-- buffer: `ntoab` returns a text of at most 23 characters.
pub ntoab-fits :
    (x b : ℕ) (signed : Bool)
    → x < 2 ^ 64
    → 8 ≤ b
    → (text : List ℕ) × (ntoab x b signed ≡ some text) × (length text ≤ 23)
unfolding ntoab
ntoab-fits x b signed lt le =
    let sign = signed && is_negative x in
    let u = if sign then add_word (neg_word (add_word x 1)) 1 else x in
    let (ds, e, f) = ntoab_loop_total 21 23 u b [] (omega arith) le (ground arith) in
    let big : ltb b 8 ≡ false = ground arith in
    (put_sign sign ds, rw (big, e), omega (arith, length-put_sign sign ds))
