-- ===== src/Libc/Division/Long.antt =====
-- `__mesabi_uldiv1`: long division.
use native.Mathlib.Decide.{dec_lt}
use native.Mathlib.Nat.{
  pow-suc, mod-lt, div-add-mod, mod-eq_of_lt, div-eq_of_lt-le, div-one, pow-le-pow_right,
}
use mes.Base.{
  ℕ, zero, suc, ◌+◌, ◌-◌, ◌*◌, ◌/◌, ◌%◌, ◌^◌, ◌≤◌, ◌<◌, bit_or, ◌≡◌, refl, sym, ap, ◌∙◌, inl, inr,
  none, some, arith, leb, ◌==◌, if◌then◌else◌, Bool-cases, bit_or-one, bit_and_1, bit_and_3,
  bit_and_7, bit_and_15, bit_and_31, bit_and_63, mul_word,
}
use mes.Libc.Division.{log2i, uldiv1_loop, uldiv1, uldiv}
use mes.Libc.Division.Log.{pow-add, two-pow-pos, log2i_lem}

-- `d` is the divisor `d0` shifted left by the rounds left less one.
abbrev shifted : ℕ → ℕ → ℕ
shifted d0 zero = d0 / 2
shifted d0 (suc j) = d0 * 2 ^ j

half_shifted : (d0 j : ℕ) → d0 * 2 ^ j / 2 ≡ shifted d0 j
half_shifted d0 zero = omega arith
half_shifted d0 (suc j) = omega (arith, ap (λ (t : ℕ). d0 * t) (pow-suc 2 j))

-- One round: `d` is taken off the remainder if it fits, and the quotient gets a bit.
record IsRound (d r q n r' q' : ℕ) : Type 0 where
  below : r' < d
  sum : q' * d + r' ≡ n

take_bit :
    (d r q n : ℕ)
    → 0 < d
    → r < d * 2
    → q * (d * 2) + r ≡ n
    → n < 2 ^ 64
    → IsRound d r q n
        (if leb d r then r - d else r)
        (if leb d r then bit_or (mul_word q 2) 1 else mul_word q 2)
take_bit d r q n pos lt e small =
    let w : mul_word q 2 ≡ q * 2 = no_wrap q d n pos (omega arith) small in
    elim (Bool-cases (leb d r)) [
      | inl y ↦
          let le : d ≤ r = ground arith in
          rw (y, w, bit_or-one q) (record { below = omega arith; sum = omega arith })
      | inr y ↦ rw (y, w) (record { below = ground arith; sum = omega arith })
    ]
  where
    no_wrap : (q d n : ℕ) → 0 < d → q * d * 2 ≤ n → n < 2 ^ 64 → mul_word q 2 ≡ q * 2
    no_wrap q d n pos le small = grind arith

uldiv1_step :
    (j d r q : ℕ)
    → uldiv1_loop (suc j) d r q
      ≡ uldiv1_loop j
          (d / 2)
          (if leb d r then r - d else r)
          (if leb d r then bit_or (mul_word q 2) 1 else mul_word q 2)
unfolding uldiv1_loop
uldiv1_step j d r q = refl

uldiv1_done : (d r q : ℕ) → uldiv1_loop zero d r q ≡ (q, r)
unfolding uldiv1_loop
uldiv1_done d r q = refl

uldiv1_loop_lem :
    (j d0 r q n : ℕ)
    → 0 < d0
    → r < d0 * 2 ^ j
    → q * (d0 * 2 ^ j) + r ≡ n
    → n < 2 ^ 64
    → ((uldiv1_loop j (shifted d0 j) r q).0 * d0 + (uldiv1_loop j (shifted d0 j) r q).1 ≡ n)
      × ((uldiv1_loop j (shifted d0 j) r q).1 < d0)
uldiv1_loop_lem zero d0 r q n pos lt e small =
    rw (uldiv1_done (d0 / 2) r q) (omega arith, omega arith)
uldiv1_loop_lem (suc j) d0 r q n pos lt e small =
    let d = d0 * 2 ^ j in
    let twice : d0 * 2 ^ suc j ≡ d * 2 = omega (arith, ap (λ (t : ℕ). d0 * t) (pow-suc 2 j)) in
    let round =
      take_bit d r q n (grind (arith, two-pow-pos j)) (rw twice at lt) (rw twice at e) small in
    rw (uldiv1_step j d r q, half_shifted d0 j)
      (uldiv1_loop_lem j d0 _ _ n pos round.below round.sum small)

mul_mono : (x d y : ℕ) → x ≤ d → x * y ≤ d * y
mul_mono x d y le = grind arith

mul_bound : (d x y : ℕ) {m : ℕ} → d < x → 0 < y → x * y ≤ m → d * y < m
mul_bound d x y lt pos le = grind arith

-- The highest bit of `d` stands at `l`; shifted left by `i` places `d` still fits a word, and by
-- one place more it does not.
shift_fits :
    (d l i : ℕ) → d / 2 ^ l ≡ 1 → l + i ≡ 63 → (d * 2 ^ i < 2 ^ 64) × (2 ^ 64 ≤ d * 2 ^ suc i)
shift_fits d l i e s =
    let low : 2 ^ l ≤ d = omega (arith, div-add-mod d (2 ^ l), ap (λ (t : ℕ). 2 ^ l * t) e) in
    let high : d < 2 ^ l + 2 ^ l =
      omega (arith, div-add-mod d (2 ^ l), ap (λ (t : ℕ). 2 ^ l * t) e, mod-lt d (two-pow-pos l)) in
    let whole : 2 ^ l * 2 ^ i ≡ 2 ^ 63 = sym (pow-add 2 l i) ∙ ap (λ (t : ℕ). 2 ^ t) s in
    shift_bounds d (2 ^ l) (2 ^ i) (2 ^ suc i) low high whole (pow-suc 2 i) (two-pow-pos i)
  where
    shift_bounds :
        (d x y y2 : ℕ)
        → x ≤ d
        → d < x + x
        → x * y ≡ 2 ^ 63
        → y2 ≡ y * 2
        → 0 < y
        → (d * y < 2 ^ 64) × (2 ^ 64 ≤ d * y2)
    shift_bounds d x y y2 low high whole two pos = (
      mul_bound d (x + x) y high pos (omega arith),
      omega (arith, ap (λ (t : ℕ). d * t) two, mul_mono x d y low),
    )

place_lt : (d l : ℕ) → d / 2 ^ l ≡ 1 → d < 2 ^ 64 → l < 64
place_lt d l e lt = elim (dec_lt l 64) [
  | yes y ↦ y
  | no y ↦
      let low : 2 ^ l ≤ d = omega (arith, div-add-mod d (2 ^ l), ap (λ (t : ℕ). 2 ^ l * t) e) in
      let over : 2 ^ 64 ≤ 2 ^ l = pow-le-pow_right (omega arith) {i = 64} (omega arith) in
      absurd (omega arith)
]

-- `__mesabi_uldiv1` is division by a number above 0: quotient and remainder.
uldiv1_lem :
    (n d : ℕ)
    → 0 < d
    → n < 2 ^ 64
    → d < 2 ^ 64
    → ((uldiv1 n d).0 * d + (uldiv1 n d).1 ≡ n) × ((uldiv1 n d).1 < d)
unfolding uldiv1
uldiv1_lem n d pos ln ld =
    let l = log2i d in
    let e : d / 2 ^ l ≡ 1 = log2i_lem d pos ld in
    let lt : l < 64 = place_lt d l e ld in
    let i : ℕ = 63 - l in
    let (fits, over) = shift_fits d l i e (omega arith) in
    let rounds : 64 - l ≡ suc i = omega arith in
    let places : 64 - l - 1 ≡ i = omega arith in
    let start : mul_word d (2 ^ i) ≡ d * 2 ^ i = mod-eq_of_lt fits in
    rw (places, rounds, start) (uldiv1_loop_lem (suc i) d n 0 n pos (omega arith) (omega arith) ln)

quotient_unique : (a b : ℕ) (p : ℕ × ℕ) → p.0 * b + p.1 ≡ a → p.1 < b → p ≡ (a / b, a % b)
quotient_unique a b (q, r) sum below =
    let e : a / b ≡ q = div-eq_of_lt-le {k = q} b (omega arith) (omega arith) in
    let f : r ≡ a % b = omega (arith, div-add-mod a b, ap (λ (t : ℕ). b * t) e) in
    let g = sym e in λ i. (g i, f i)

-- `__mesabi_uldiv` on words: for a divisor of 0 it raises SIGFPE, and for every other it returns
-- the quotient and the remainder, by shifts and masks for the powers of 2 up to 64 and by long
-- division else.
pub uldiv-div_mod :
    (a b : ℕ) → a < 2 ^ 64 → b < 2 ^ 64 → uldiv a b ≡ (if b == 0 then none else some (a / b, a % b))
unfolding uldiv
uldiv-div_mod a b la lb = elim (Bool-cases (b == 0)) [
  | inl y ↦ let e : b ≡ 0 = ground arith in rw e
  | inr y ↦
      let pos : 0 < b = ground arith in
      let (sum, below) = uldiv1_lem a b pos la lb in
      let long = quotient_unique a b (uldiv1 a b) sum below in
      rw y (
        ground (
          arith,
          long,
          bit_and_63 a,
          bit_and_31 a,
          bit_and_15 a,
          bit_and_7 a,
          bit_and_3 a,
          bit_and_1 a,
          div-one a,
        ))
]
