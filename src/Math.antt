-- ===== src/Math.antt =====
-- src/math.c: the arithmetic of the interpreter, on 64-bit words.
pub mod Sum
pub mod Minus
pub mod Compare
pub mod Divide
use mes.Base.{
  ℕ, zero, suc, ◌-◌, ◌/◌, ◌%◌, ◌^◌, bit_and, bit_or, bit_xor, Bool, true, false, not, ◌&&◌, ◌||◌,
  leb, ◌==◌, if◌then◌else◌, minus_one, is_negative, add_word, sub_word, mul_word, neg_word, slt,
  sle,
}
use mes.Core.{car, cdr}
use mes.Heap.{
  Heap, not_a_number, divide_by_zero, object, Run, ok, abort, out_of_fuel, ◌>>=◌, ◌>>◌, error,
  type_at, car_at, cdr_at,
}
use mes.Heap.Alloc.{make_number}
use mes.Heap.Const.{t_number, cell_nil, cell_f, cell_t}

-- `assert_number (name, x)`.
abbrev pub assert_number : ℕ → Heap → Run Heap (Unit {0})
assert_number x h = if type_at h x == t_number then ok tt h else error not_a_number (object x) h

abbrev pub value_at : Heap → ℕ → ℕ
value_at h x = cdr_at h x

-- The loop that `+`, `-`, `*` and the bit operations share: `n` is combined with the value of each
-- element, which has to be a number.
unfoldable pub fold_loop : (ℕ → ℕ → ℕ) → ℕ → ℕ → ℕ → Heap → Run Heap ℕ
fold_loop op zero n x h = out_of_fuel
fold_loop op (suc k) n x h =
    let rest =
      (do i ← car x; assert_number i; λ h. (do d ← cdr x; fold_loop op k (op n (value_at h i)) d) h)
        h in
    if x == cell_nil then ok n h else rest

unfoldable pub plus : ℕ → ℕ → Heap → Run Heap ℕ
plus k x = do n ← fold_loop add_word k 0 x; make_number n

unfoldable pub multiply : ℕ → ℕ → Heap → Run Heap ℕ
multiply k x = do n ← fold_loop mul_word k 1 x; make_number n

unfoldable pub logand : ℕ → ℕ → Heap → Run Heap ℕ
logand k x = do n ← fold_loop bit_and k minus_one x; make_number n

unfoldable pub logior : ℕ → ℕ → Heap → Run Heap ℕ
logior k x = do n ← fold_loop bit_or k 0 x; make_number n

unfoldable pub logxor : ℕ → ℕ → Heap → Run Heap ℕ
logxor k x = do n ← fold_loop bit_xor k 0 x; make_number n

unfoldable pub lognot : ℕ → Heap → Run Heap ℕ
lognot x = do assert_number x; λ h. make_number (minus_one - value_at h x) h

unfoldable pub minus : ℕ → ℕ → Heap → Run Heap ℕ
minus k x h =
    (do
      assert_number (car_at h x)
      let n = value_at h (car_at h x)
      d ← cdr x
      n' ← fold_loop sub_word k (if d == cell_nil then neg_word n else n) d
      make_number n')
      h

-- The loop of `>`, `<` and `=` from `x`; `keep v n` says that the next value `v` stands in order
-- after `n`. `=` does not check that the elements behind the first are numbers.
unfoldable pub compare_loop : Bool → (ℕ → ℕ → Bool) → ℕ → ℕ → ℕ → Heap → Run Heap ℕ
compare_loop check keep zero n x h = out_of_fuel
compare_loop check keep (suc k) n x h =
    let rest =
      (do
        (λ h. if check then assert_number (car_at h x) h else ok tt h)
        i ← car x
        λ h.
            let v = value_at h i in
            let later = (do d ← cdr x; compare_loop check keep k v d) h in
            if keep v n then later else ok cell_f h)
        h in
    if x == cell_nil then ok cell_t h else rest

unfoldable pub compare_all : Bool → (ℕ → ℕ → Bool) → ℕ → ℕ → Heap → Run Heap ℕ
compare_all check keep k x h =
    if x == cell_nil
    then ok cell_t h
    else (do
      assert_number (car_at h x)
      d ← (λ h. if check then ok (cdr_at h x) h else cdr x h)
      compare_loop check keep k (value_at h (car_at h x)) d)
        h

unfoldable pub greater_p : ℕ → ℕ → Heap → Run Heap ℕ
greater_p = compare_all true (λ v n. not (sle n v))

unfoldable pub less_p : ℕ → ℕ → Heap → Run Heap ℕ
less_p = compare_all true (λ v n. not (sle v n))

unfoldable pub is_p : ℕ → ℕ → Heap → Run Heap ℕ
is_p = compare_all false (λ v n. v == n)

-- The loop of `/` from `x`: `u` is the quotient so far, without its sign.
unfoldable pub divide_loop : ℕ → Bool → ℕ → ℕ → Heap → Run Heap (Bool × ℕ)
divide_loop zero sign u x h = out_of_fuel
divide_loop (suc k) sign u x h =
    let rest =
      (do
        i ← car x
        assert_number i
        λ h.
            let v = value_at h i in
            let sign' = (sign && slt 0 v) || (not sign && is_negative v) in
            let later = (do d ← cdr x; divide_loop k sign' (if v == 1 then u else u / v) d) h in
            if v == 0
            then error divide_by_zero (object x) h
            else if u == 0
            then ok (sign', u) h
            else later)
        h in
    if x == cell_nil then ok (sign, u) h else rest

abbrev pub with_sign : Bool → ℕ → ℕ
with_sign sign u = if sign then neg_word u else u

unfoldable pub divide : ℕ → ℕ → Heap → Run Heap ℕ
divide k x h =
    if x == cell_nil
    then make_number 1 h
    else (do
      i ← car x
      assert_number i
      λ h.
          let n = value_at h i in
          (do
            d ← cdr x
            (sign, u) ← divide_loop k (is_negative n) (with_sign (is_negative n) n) d
            make_number (with_sign sign u))
            h)
        h

-- `while (n < 0) n = n + w;`
unfoldable pub raise_loop : ℕ → ℕ → ℕ → Heap → Run Heap ℕ
raise_loop zero w n h = out_of_fuel
raise_loop (suc k) w n h =
    let rest = raise_loop k w (add_word n w) h in if is_negative n then rest else ok n h

unfoldable pub modulo : ℕ → ℕ → ℕ → Heap → Run Heap ℕ
modulo k a b = do
  assert_number a
  assert_number b
  λ h.
      let n = value_at h a in
      let v = value_at h b in
      if v == 0
      then error divide_by_zero (object a) h
      else (do
        let w = with_sign (is_negative v) v
        u ← raise_loop k w n
        make_number (with_sign (is_negative v) (if u == 0 then u else u % w)))
          h

-- `>>` on a `long` keeps the sign.
abbrev pub shift_right : ℕ → ℕ → ℕ
shift_right w n = if is_negative w then minus_one - (minus_one - w) / 2 ^ n else w / 2 ^ n

-- A shift by 64 or more is undefined in C, and aborts here.
unfoldable pub ash : ℕ → ℕ → Heap → Run Heap ℕ
ash n count = do
  assert_number n
  assert_number count
  λ h.
      let cn = value_at h n in
      let ccount = value_at h count in
      let places = with_sign (is_negative ccount) ccount in
      if leb 64 places
      then abort
      else if is_negative ccount
      then make_number (shift_right cn places) h
      else make_number (mul_word cn (2 ^ places)) h
