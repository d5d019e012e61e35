-- ===== src/Math/Divide.antt =====
-- `/` and `modulo` of src/math.c.
use native.Mathlib.Nat.{
  mod-eq_of_lt, mod-eq-sub-mod, mod-lt, zero-mod, div-div-eq-div-mul, div-eq_of_lt, zero-div,
  div-one,
}
use native.Mathlib.Decide.{dec_lt}
use mes.Base.{
  ℕ, zero, suc, ◌+◌, ◌-◌, ◌*◌, ◌/◌, ◌%◌, ◌^◌, ◌≤◌, ◌<◌, ◌≡◌, refl, sym, ap, ◌∙◌, ◌≢◌, inl, inr,
  Bool, true, false, not, ◌&&◌, ◌||◌, List, [], ◌∷◌, arith, ◌==◌, if◌then◌else◌, Bool-cases, length,
  minus_one, is_negative, add_word, slt,
}
use mes.Core.Pair.{car_ok, cdr_ok}
use mes.Heap.{Heap, ok, and_then, type_at, cdr_at, cell}
use mes.Heap.Agree.{Room, grow, make_cell_ok, ListAt}
use mes.Heap.Alloc.{make_number}
use mes.Heap.Const.{t_number, cell_nil}
use mes.Math.{value_at, divide_loop, with_sign, divide, raise_loop, modulo}
use mes.Math.Sum.{product_values}

-- The least number that is congruent to the `long` `n` modulo `w`.
abbrev pub floor_mod : ℕ → ℕ → ℕ
floor_mod n w = if is_negative n then w - 1 - (minus_one - n) % w else n % w

raise_step :
    (k w n : ℕ) (h : Heap)
    → is_negative n ≡ true
    → raise_loop (suc k) w n h ≡ raise_loop k w (add_word n w) h
unfolding raise_loop
raise_step k w n h e = rw e

raise_done : (k w n : ℕ) (h : Heap) → is_negative n ≡ false → raise_loop (suc k) w n h ≡ ok n h
unfolding raise_loop
raise_done k w n h e = rw e

raise_loop_lem :
    (k w n m : ℕ) (h : Heap)
    → n + m ≡ minus_one
    → m < 2 ^ 63
    → 0 < w
    → w ≤ 2 ^ 63
    → m < k * w
    → raise_loop (suc k) w n h ≡ ok (w - 1 - m % w) h
raise_loop_lem zero w n m h e lt pos le enough = absurd (omega arith)
raise_loop_lem (suc k) w n m h e lt pos le enough = elim (dec_lt m w) [
  | yes y ↦
      raise_step (suc k) w n h (ground arith)
      ∙ raise_done k w (add_word n w) h (ground arith)
      ∙ ap (λ (t : ℕ). ok t h) (omega (arith, mod-eq_of_lt y))
  | no y ↦
      raise_step (suc k) w n h (ground arith)
      ∙ raise_loop_lem k w (add_word n w) (m - w) h (omega arith) (omega arith) pos le (grind arith)
      ∙ ap (λ (t : ℕ). ok (w - 1 - t) h) (sym (mod-eq-sub-mod (omega arith)))
]

raise_all :
    (k n w : ℕ) (h : Heap)
    → n < 2 ^ 64
    → 0 < w
    → w ≤ 2 ^ 63
    → (is_negative n ≡ true → minus_one - n < k * w)
    → (u : ℕ) × (raise_loop (suc k) w n h ≡ ok u h) × (u % w ≡ floor_mod n w)
raise_all k n w h lt pos le enough = elim (Bool-cases (is_negative n)) [
  | inl y ↦ (
    w - 1 - (minus_one - n) % w,
    raise_loop_lem k w n (minus_one - n) h (omega arith) (ground arith) pos le (enough y),
    rw y (mod-eq_of_lt (omega (arith, mod-lt (minus_one - n) pos))),
  )
  | inr y ↦ (n, raise_done k w n h y, rw y)
]

remainder : ℕ → ℕ → ℕ
remainder u w = if u == 0 then u else u % w

remainder-mod : (u w : ℕ) → remainder u w ≡ u % w
unfolding remainder
remainder-mod zero w = sym (zero-mod w)
remainder-mod (suc u) w = let e : (suc u == 0) ≡ false = ground arith in rw e

modulo_tail :
    (k n w : ℕ) (sign : Bool) (h : Heap)
    → Room 1 h
    → n < 2 ^ 64
    → 0 < w
    → w ≤ 2 ^ 63
    → (is_negative n ≡ true → minus_one - n < k * w)
    → and_then (raise_loop (suc k) w n h) (λ u. make_number (with_sign sign (remainder u w)))
      ≡ ok h.free (grow h (cell t_number 0 (with_sign sign (floor_mod n w))))
modulo_tail k n w sign h r lt pos le enough =
    let (u, e, f) = raise_all k n w h lt pos le enough in
    rw (e, remainder-mod u w, f) (make_cell_ok t_number 0 (with_sign sign (floor_mod n w)) h r)

-- `(modulo a b)` on two numbers, the second not 0: given rounds enough, one more than |a| / |b|
-- rounded up, it returns a new number. For a positive `b` this is the least number congruent to
-- `a`; for a negative `b` it is the negated remainder by |b|.
pub modulo-floor_mod :
    (k a b : ℕ) (h : Heap)
    → Room 1 h
    → type_at h a ≡ t_number
    → type_at h b ≡ t_number
    → value_at h a < 2 ^ 64
    → value_at h b < 2 ^ 64
    → value_at h b ≢ 0
    → let sign = is_negative (value_at h b) in
      let w = with_sign sign (value_at h b) in
      (is_negative (value_at h a) ≡ true → minus_one - value_at h a < k * w)
      → modulo (suc k) a b h
        ≡ ok h.free (grow h (cell t_number 0 (with_sign sign (floor_mod (value_at h a) w))))
unfolding modulo remainder
modulo-floor_mod k a b h r ta tb la lb nz enough =
    let nz' : (value_at h b == 0) ≡ false = ground arith in
    let sign = is_negative (value_at h b) in
    simp (ta, tb, nz')
      (modulo_tail k (value_at h a) (with_sign sign (value_at h b)) sign h r la (ground arith)
        (ground arith) enough)

-- The elements are numbers above 0.
abbrev pub Positive : Heap → List ℕ → Type 0
Positive h [] = Unit {0}
Positive h (x ∷ xs) =
    (type_at h x ≡ t_number) × (0 < value_at h x) × (value_at h x < 2 ^ 63) × Positive h xs

by_one : (u v : ℕ) → (if v == 1 then u else u / v) ≡ u / v
by_one u v = elim (Bool-cases (v == 1)) [
  | inl y ↦ let e : v ≡ 1 = ground arith in rw (e, div-one)
  | inr y ↦ rw y
]

zero_quotient : (u p : ℕ) → (u == 0) ≡ true → u / p ≡ u
zero_quotient u p y = let e : u ≡ 0 = ground arith in rw (e, zero-div)

divide_loop_lem :
    (h : Heap) (b : ℕ) (xs : List ℕ) (k : ℕ) (sign : Bool) (u x : ℕ)
    → Positive h xs
    → ListAt h b x xs
    → length xs < k
    → divide_loop k sign u x h ≡ ok (sign, u / product_values h xs) h
unfolding divide_loop
divide_loop_lem h b xs zero sign u x pos l lt = absurd (omega arith)
divide_loop_lem h b [] (suc k) sign u x pos l lt =
    let e : (x == cell_nil) ≡ true = ground arith in rw (e, div-one)
divide_loop_lem h b (e ∷ xs) (suc k) sign u x (ty, low, high, pos) (ne, lb, t, c, l) lt =
    let nn : (x == cell_nil) ≡ false = ground arith in
    let nz : (value_at h e == 0) ≡ false = ground arith in
    let s : ((sign && slt 0 (value_at h e)) || (not sign && is_negative (value_at h e))) ≡ sign =
      ground arith in
    elim (Bool-cases (u == 0)) [
      | inl y ↦
          simp (nn, car_ok x h t, c, ty, nz, y, s)
            (rw (zero_quotient u (product_values h (e ∷ xs)) y))
      | inr y ↦
          simp (nn, car_ok x h t, cdr_ok x h t, c, ty, nz, y, s)
            (rw (
              by_one u (value_at h e),
              divide_loop_lem h b xs k sign (u / value_at h e) (cdr_at h x) pos l (omega arith),
              div-div-eq-div-mul,
            ))
    ]

-- `(/ n x ...)` with a number `n` and divisors above 0, given rounds enough, is a new number: the
-- quotient of |n| by the product of the divisors, rounded down, with the sign of `n`.
pub divide-product_values :
    (h : Heap) (b k n x : ℕ) (xs : List ℕ)
    → Room 1 h
    → type_at h n ≡ t_number
    → Positive h xs
    → ListAt h b x (n ∷ xs)
    → length xs < k
    → let sign = is_negative (value_at h n) in
      divide k x h
      ≡ ok h.free (
          grow h (
            cell t_number 0 (with_sign sign (with_sign sign (value_at h n) / product_values h xs))))
unfolding divide
divide-product_values h b k n x xs r ty pos (ne, lb, t, c, l) lt =
    let nn : (x == cell_nil) ≡ false = ground arith in
    let sign = is_negative (value_at h n) in
    simp (nn, car_ok x h t, cdr_ok x h t, c, ty)
      (rw (divide_loop_lem h b xs k sign (with_sign sign (value_at h n)) (cdr_at h x) pos l lt)
        (make_cell_ok t_number 0 _ h r))

with_sign-zero : (sign : Bool) → with_sign sign 0 ≡ 0
with_sign-zero true = refl
with_sign-zero false = refl

-- A negative divisor is taken for its bit pattern, which is larger than any absolute value of a
-- `long` but that of the least: `(/ n v)` with a negative number `v` is 0 for every other `n`.
pub divide-negative :
    (h : Heap) (b k n v x : ℕ)
    → Room 1 h
    → type_at h n ≡ t_number
    → type_at h v ≡ t_number
    → value_at h n < 2 ^ 64
    → value_at h n ≢ 2 ^ 63
    → is_negative (value_at h v) ≡ true
    → ListAt h b x (n ∷ v ∷ [])
    → divide (suc (suc k)) x h ≡ ok h.free (grow h (cell t_number 0 0))
unfolding divide divide_loop
divide-negative h b k n v x r tn tv lt least neg (ne, lb, t, c, (ne', lb', t', c', e)) =
    let x' = cdr_at h x in
    let nn : (x == cell_nil) ≡ false = ground arith in
    let nn' : (x' == cell_nil) ≡ false = ground arith in
    let end : (cdr_at h x' == cell_nil) ≡ true = ground arith in
    let nz : (value_at h v == 0) ≡ false = ground arith in
    let one : (value_at h v == 1) ≡ false = ground arith in
    let u = with_sign (is_negative (value_at h n)) (value_at h n) in
    let q : u / value_at h v ≡ 0 = div-eq_of_lt (ground arith) in
    let done = make_cell_ok t_number 0 0 h r in
    elim (Bool-cases (u == 0)) [
      | inl y ↦
          let u0 : u ≡ 0 = ground arith in
          simp (nn, nn', car_ok x h t, cdr_ok x h t, c, tn, car_ok x' h t', c', tv, nz, u0)
            (rw with_sign-zero done)
      | inr y ↦
          simp
            (
              nn,
              nn',
              car_ok x h t,
              cdr_ok x h t,
              c,
              tn,
              car_ok x' h t',
              cdr_ok x' h t',
              c',
              tv,
              nz,
              y,
              one,
              q,
              end,
            )
            (rw with_sign-zero done)
    ]
