-- ===== src/Core.antt =====
-- src/core.c: the list primitives of the evaluator. A loop along a list takes the number of
-- rounds that it may run; a list of `n` pairs wants `n + 1`.
pub mod Length
pub mod Append
pub mod Pair
pub mod Reverse
pub mod Assq
use mes.Base.{ℕ, zero, suc, ◌+◌, Bool, not, ◌&&◌, ◌||◌, ◌==◌, if◌then◌else◌, minus_one}
use mes.Heap.{
  Heap, not_a_pair, object, named, both, Run, ok, out_of_fuel, and_then, ◌>>=◌, ◌>>◌, error,
  type_at, car_at, cdr_at, cell, write, write_cdr,
}
use mes.Heap.Alloc.{cons, make_number}
use mes.Heap.Const.{
  t_char, t_keyword, t_number, t_pair, t_special, t_symbol, t_values, cell_nil, cell_f, cell_t,
}
use mes.Strings.{string_equal_p}

unfoldable pub car : ℕ → Heap → Run Heap ℕ
car x h =
    if type_at h x == t_pair
    then ok (car_at h x) h
    else error not_a_pair (both (object x) (named "car")) h

unfoldable pub cdr : ℕ → Heap → Run Heap ℕ
cdr x h =
    if type_at h x == t_pair
    then ok (cdr_at h x) h
    else error not_a_pair (both (object x) (named "cdr")) h

abbrev pub truth : Bool → ℕ
truth b = if b then cell_t else cell_f

unfoldable pub null_p : ℕ → Heap → Run Heap ℕ
null_p x h = ok (truth (x == cell_nil)) h

unfoldable pub eq_p : ℕ → ℕ → Heap → Run Heap ℕ
eq_p x y h =
    let t = type_at h x in
    if x == y
    then ok cell_t h
    else if t == t_keyword
    then (if type_at h y == t_keyword then string_equal_p x y h else ok cell_f h)
    else if (t == t_char) || (t == t_number)
    then ok (truth ((type_at h y == t) && (cdr_at h x == cdr_at h y))) h
    else ok cell_f h

unfoldable pub values : ℕ → Heap → Run Heap ℕ
values x = do v ← cons 0 x; λ h. ok v (write h v (cell t_values (car_at h v) (cdr_at h v)))

-- The loop of `length__` from `x`, with `n` pairs counted. A `long` of -1 says that the list
-- does not end in `()`.
unfoldable pub length_loop : ℕ → ℕ → ℕ → Heap → Run Heap ℕ
length_loop zero x n h = out_of_fuel
length_loop (suc k) x n h =
    let rest = length_loop k (cdr_at h x) (n + 1) h in
    if x == cell_nil then ok n h else if type_at h x == t_pair then rest else ok minus_one h

unfoldable pub list_length : ℕ → ℕ → Heap → Run Heap ℕ
list_length k x = length_loop k x 0

unfoldable pub length_p : ℕ → ℕ → Heap → Run Heap ℕ
length_p k x = do n ← list_length k x; make_number n

-- The loop that conses the cars from `x` on before `y`.
unfoldable pub append_reverse_loop : ℕ → ℕ → ℕ → Heap → Run Heap ℕ
append_reverse_loop zero x y h = out_of_fuel
append_reverse_loop (suc k) x y h =
    let rest = (do y' ← cons (car_at h x) y; λ h'. append_reverse_loop k (cdr_at h' x) y' h') h in
    if x == cell_nil then ok y h else rest

unfoldable pub append_reverse : ℕ → ℕ → ℕ → Heap → Run Heap ℕ
append_reverse k x y h =
    if x == cell_nil
    then ok y h
    else if type_at h x == t_pair
    then append_reverse_loop k x y h
    else error not_a_pair (both (object x) (named "append-reverse")) h

-- The loop of `reverse!`: `t = x->cdr; x->cdr = r; r = x; x = t`.
unfoldable pub reverse_loop : ℕ → ℕ → ℕ → Heap → Run Heap ℕ
reverse_loop zero x r h = out_of_fuel
reverse_loop (suc k) x r h =
    let rest = reverse_loop k (cdr_at h x) x (write_cdr h x r) in
    if x == cell_nil then ok r h else rest

unfoldable pub reverse_x : ℕ → ℕ → ℕ → Heap → Run Heap ℕ
reverse_x k x t h =
    if not (x == cell_nil) && not (type_at h x == t_pair)
    then error not_a_pair (both (object x) (named "core:reverse!")) h
    else reverse_loop k x t h

unfoldable pub append2 : ℕ → ℕ → ℕ → Heap → Run Heap ℕ
append2 k x y h =
    if x == cell_nil
    then ok y h
    else if type_at h x == t_pair
    then (do r ← append_reverse_loop k x cell_nil; reverse_x k r y) h
    else error not_a_pair (both (object x) (named "append2")) h

-- The four loops of `assq` differ in how they compare the key of an entry.
unfoldable pub assq_loop : (ℕ → Heap → Run Heap ℕ) → ℕ → ℕ → Heap → Run Heap ℕ
assq_loop same zero a h = out_of_fuel
assq_loop same (suc k) a h =
    let rest = assq_loop same k (cdr_at h a) h in
    if a == cell_nil
    then ok cell_f h
    else and_then (same (car_at h (car_at h a)) h)
        (λ r h'. if r == cell_t then ok (car_at h' a) h' else rest)

-- `x` and the key are one cell.
abbrev pub same_cell : ℕ → ℕ → Heap → Run Heap ℕ
same_cell x y h = ok (truth (x == y)) h

-- The key holds the value of `x`, whatever its type is.
abbrev pub same_value : ℕ → ℕ → Heap → Run Heap ℕ
same_value x y h = ok (truth (cdr_at h x == cdr_at h y)) h

unfoldable pub assq : ℕ → ℕ → ℕ → Heap → Run Heap ℕ
assq k x a h =
    let t = type_at h x in
    if not (type_at h a == t_pair)
    then ok cell_f h
    else if (t == t_symbol) || (t == t_special)
    then assq_loop (same_cell x) k a h
    else if (t == t_char) || (t == t_number)
    then assq_loop (same_value x) k a h
    else if t == t_keyword
    then assq_loop (string_equal_p x) k a h
    else assq_loop (same_cell x) k a h
