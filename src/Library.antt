-- ===== src/Library.antt =====
-- src/lib.c: library primitives that the evaluator does not need itself.
use mes.Base.{
  ℕ, zero, suc, ◌+◌, ◌-◌, ◌%◌, ◌^◌, true, false, ◌&&◌, ◌||◌, leb, ◌==◌, if◌then◌else◌, is_negative,
}
use mes.Core.{truth, eq_p, same_cell, same_value}
use mes.Heap.{Heap, Run, ok, out_of_fuel, and_then, type_at, car_at, cdr_at}
use mes.Heap.Alloc.{cell_ref, make_char, make_number}
use mes.Heap.Const.{
  t_char, t_closure, t_keyword, t_number, t_pair, t_ref, t_string, t_binding, t_vector, cell_nil,
  cell_f, cell_t,
}
use mes.Strings.{string_equal_p}

unfoldable pub type_ : ℕ → Heap → Run Heap ℕ
type_ x h = make_number (type_at h x) h

-- `car_` and `cdr_` look into any cell: the word of a cell with no such field is made a number.
unfoldable pub car_ : ℕ → Heap → Run Heap ℕ
car_ x h =
    if (type_at h x == t_pair) || (type_at h x == t_binding)
    then ok (car_at h x) h
    else make_number (car_at h x) h

unfoldable pub cdr_ : ℕ → Heap → Run Heap ℕ
cdr_ x h =
    if (type_at h x == t_pair) || (type_at h x == t_closure)
    then ok (cdr_at h x) h
    else make_number (cdr_at h x) h

unfoldable pub xassq : ℕ → ℕ → ℕ → Heap → Run Heap ℕ
xassq zero x a h = out_of_fuel
xassq (suc k) x a h =
    let rest = xassq k x (cdr_at h a) h in
    if a == cell_nil
    then ok cell_f h
    else if x == cdr_at h (car_at h a)
    then ok (car_at h a) h
    else rest

-- The loops of `memq` differ in how they compare an element.
unfoldable pub memq_loop : (ℕ → Heap → Run Heap ℕ) → ℕ → ℕ → Heap → Run Heap ℕ
memq_loop same zero a h = out_of_fuel
memq_loop same (suc k) a h =
    let rest = memq_loop same k (cdr_at h a) h in
    if a == cell_nil
    then ok cell_f h
    else and_then (same (car_at h a) h) (λ r h'. if r == cell_t then ok a h' else rest)

-- Only another keyword is compared by its text.
abbrev pub same_keyword : ℕ → ℕ → Heap → Run Heap ℕ
same_keyword x y h = if type_at h y == t_keyword then string_equal_p x y h else ok cell_f h

unfoldable pub memq : ℕ → ℕ → ℕ → Heap → Run Heap ℕ
memq k x a h =
    let t = type_at h x in
    if (t == t_char) || (t == t_number)
    then memq_loop (same_value x) k a h
    else if t == t_keyword
    then memq_loop (same_keyword x) k a h
    else memq_loop (same_cell x) k a h

-- The object that an element cell stands for.
abbrev pub through_ref : Heap → ℕ → ℕ
through_ref h e = if type_at h e == t_ref then car_at h e else e

-- The element loop of `equal2_p` at index `i`, with `n` elements left.
unfoldable pub elements_equal : (ℕ → ℕ → Heap → Run Heap ℕ) → ℕ → ℕ → ℕ → ℕ → Heap → Run Heap ℕ
elements_equal equal zero i va vb h = ok cell_t h
elements_equal equal (suc n) i va vb h =
    let later = elements_equal equal n (i + 1) va vb in
    and_then (equal (through_ref h (cell_ref va i)) (through_ref h (cell_ref vb i)) h)
      (λ r h'. elim (r == cell_f) [ true ↦ ok cell_f h' | false ↦ later h' ])

-- The depth of the recursion, and the length of a list, are bounded by the first argument.
unfoldable pub equal2_p : ℕ → ℕ → ℕ → Heap → Run Heap ℕ
equal2_p zero a b h = out_of_fuel
equal2_p (suc k) a b h =
    let equal = equal2_p k in
    let ta = type_at h a in
    let tb = type_at h b in
    if a == b
    then ok cell_t h
    else if (ta == t_pair) && (tb == t_pair)
    then and_then (equal (car_at h a) (car_at h b) h) (λ r h'. elim (r == cell_t) [
      | true ↦ equal (cdr_at h' a) (cdr_at h' b) h'
      | false ↦ ok cell_f h'
    ])
    else if (ta == t_string) && (tb == t_string)
    then string_equal_p a b h
    else if (ta == t_vector) && (tb == t_vector)
    then (if car_at h a == car_at h b
        then elements_equal equal (if is_negative (car_at h a) then 0 else car_at h a) 0
            (cdr_at h a) (cdr_at h b) h
        else ok cell_f h)
    else eq_p a b h

unfoldable pub last_pair : ℕ → ℕ → Heap → Run Heap ℕ
last_pair zero x h = out_of_fuel
last_pair (suc k) x h =
    let rest = last_pair k (cdr_at h x) h in
    if x == cell_nil then ok x h else if cdr_at h x == cell_nil then ok x h else rest

unfoldable pub pair_p : ℕ → Heap → Run Heap ℕ
pair_p x h = ok (truth (type_at h x == t_pair)) h

unfoldable pub char_to_integer : ℕ → Heap → Run Heap ℕ
char_to_integer x h = make_number (cdr_at h x) h

-- The argument of `make_char` is an `int`, which keeps the low 32 bits with their sign.
unfoldable pub integer_to_char : ℕ → Heap → Run Heap ℕ
integer_to_char x h =
    let low = cdr_at h x % 2 ^ 32 in
    make_char (if leb (2 ^ 31) low then low + (2 ^ 64 - 2 ^ 32) else low) h

-- `assoc` of src/core.c, with its loop over the entries whose key is a string.
unfoldable pub assoc_string : ℕ → ℕ → ℕ → Heap → Run Heap ℕ
assoc_string zero x a h = out_of_fuel
assoc_string (suc k) x a h =
    let b = car_at h a in
    let rest = assoc_string k x (cdr_at h a) in
    let same =
      if type_at h (car_at h b) == t_string then string_equal_p x (car_at h b) h else ok cell_f h in
    if a == cell_nil
    then ok cell_f h
    else and_then same (λ r h'. elim (r == cell_t) [ true ↦ ok b h' | false ↦ rest h' ])

unfoldable pub assoc_loop : ℕ → ℕ → ℕ → ℕ → Heap → Run Heap ℕ
assoc_loop depth zero x a h = out_of_fuel
assoc_loop depth (suc k) x a h =
    let rest = assoc_loop depth k x (cdr_at h a) in
    if a == cell_nil
    then ok cell_f h
    else and_then (equal2_p depth x (car_at h (car_at h a)) h)
        (λ r h'. elim (r == cell_t) [ true ↦ ok (car_at h' a) h' | false ↦ rest h' ])

-- `depth` bounds the recursion of `equal2_p`.
unfoldable pub assoc : ℕ → ℕ → ℕ → ℕ → Heap → Run Heap ℕ
assoc depth k x a h =
    if type_at h x == t_string then assoc_string k x a h else assoc_loop depth k x a h
