-- ===== src/Math/Sum.antt =====
-- `+` and `*` of src/math.c against sums and products, and the loop that they share with `-`.
use native.Mathlib.Nat.{mul_assoc, zero-add, one-mul}
use mes.Base.{
  ℕ, zero, suc, ◌+◌, ◌*◌, ◌/◌, ◌%◌, ◌^◌, ◌<◌, ◌≡◌, ap, ◌∙◌, inl, inr, false, Option, none, some,
  List, [], ◌∷◌, arith, ◌==◌, if◌then◌else◌, Bool-cases, Option-cases, length, wrap, add_word,
  sub_word, mul_word,
}
use mes.Core.Pair.{car_ok, cdr_ok}
use mes.Heap.{Heap, not_a_number, object, Run, ok, throw, and_then, type_at, cdr_at, cell}
use mes.Heap.Agree.{Room, grow, make_cell_ok, ListAt}
use mes.Heap.Alloc.{make_number}
use mes.Heap.Const.{t_number, cell_nil}
use mes.Math.{value_at, fold_loop, plus, multiply}

-- The first element that is no number.
abbrev pub first_other : Heap → List ℕ → Option ℕ
first_other h [] = none
first_other h (x ∷ xs) = if type_at h x == t_number then first_other h xs else some x

abbrev pub sum_values : Heap → List ℕ → ℕ
sum_values h [] = 0
sum_values h (x ∷ xs) = value_at h x + sum_values h xs

abbrev pub fold_values : (ℕ → ℕ → ℕ) → Heap → ℕ → List ℕ → ℕ
fold_values op h n [] = n
fold_values op h n (x ∷ xs) = fold_values op h (op n (value_at h x)) xs

-- The run, unless an element is no number.
abbrev pub checked : {A : Type 0} → Heap → Option ℕ → Run Heap A → Run Heap A
checked h none run = run
checked h (some e) run = throw not_a_number (object e) h

pub fold_loop_lem :
    (op : ℕ → ℕ → ℕ) (h : Heap) (b : ℕ) (xs : List ℕ) (k n x : ℕ)
    → ListAt h b x xs
    → length xs < k
    → fold_loop op k n x h ≡ checked h (first_other h xs) (ok (fold_values op h n xs) h)
unfolding fold_loop
fold_loop_lem op h b xs zero n x l lt = absurd (omega arith)
fold_loop_lem op h b [] (suc k) n x l lt = ground arith
fold_loop_lem op h b (e ∷ xs) (suc k) n x (ne, lb, t, c, l) lt =
    let nn : (x == cell_nil) ≡ false = ground arith in
    let ih = fold_loop_lem op h b xs k (op n (value_at h e)) (cdr_at h x) l (omega arith) in
    elim (Bool-cases (type_at h e == t_number)) [
      | inl y ↦ simp (nn, car_ok x h t, cdr_ok x h t, c, y) (rw ih)
      | inr y ↦ simp (nn, car_ok x h t, c, y)
    ]

fold_add :
    (h : Heap) (n : ℕ) (xs : List ℕ)
    → n < 2 ^ 64
    → fold_values add_word h n xs ≡ wrap (n + sum_values h xs)
fold_add h n [] lt = omega arith
fold_add h n (x ∷ xs) lt = omega (arith, fold_add h (add_word n (value_at h x)) xs (omega arith))

wrap-mul : (a b : ℕ) → wrap (wrap a * b) ≡ wrap (a * b)
wrap-mul a b =
    let e : a ≡ 2 ^ 64 * (a / 2 ^ 64) + a % 2 ^ 64 = omega arith in
    omega (arith, ap (λ (t : ℕ). t * b) e)

abbrev pub product_values : Heap → List ℕ → ℕ
product_values h [] = 1
product_values h (x ∷ xs) = value_at h x * product_values h xs

fold_mul :
    (h : Heap) (n : ℕ) (xs : List ℕ)
    → n < 2 ^ 64
    → fold_values mul_word h n xs ≡ wrap (n * product_values h xs)
fold_mul h n [] lt = omega arith
fold_mul h n (x ∷ xs) lt =
    fold_mul h (mul_word n (value_at h x)) xs (omega arith)
    ∙ wrap-mul (n * value_at h x) (product_values h xs)
    ∙ ap wrap (mul_assoc n (value_at h x) (product_values h xs))

pub fold_sub :
    (h : Heap) (n : ℕ) (xs : List ℕ)
    → n < 2 ^ 64
    → (fold_values sub_word h n xs < 2 ^ 64)
      × (wrap (fold_values sub_word h n xs + sum_values h xs) ≡ n)
fold_sub h n [] lt = omega arith
fold_sub h n (x ∷ xs) lt = omega (arith, fold_sub h (sub_word n (value_at h x)) xs (omega arith))

-- The result of an arithmetic primitive: a new number, or the error for the first argument that
-- is no number.
abbrev pub number_or_error : Heap → List ℕ → ℕ → Run Heap ℕ
number_or_error h xs v = checked h (first_other h xs) (ok h.free (grow h (cell t_number 0 v)))

pub new_number :
    (h : Heap) (xs : List ℕ) (v : ℕ)
    → Room 1 h
    → and_then (checked h (first_other h xs) (ok v h)) (λ n. make_number n) ≡ number_or_error h xs v
new_number h xs v r = elim (Option-cases (first_other h xs)) [
  | inl e ↦ simp e (make_cell_ok t_number 0 v h r)
  | inr (x, e) ↦ simp e
]

-- `(+ x ...)` is the sum of its arguments modulo 2 ^ 64, in a new number. If an argument is no
-- number, it is `not-a-number` with the first such argument, and the heap stays the same.
pub plus-sum_values :
    (h : Heap) (b k x : ℕ) (xs : List ℕ)
    → Room 1 h
    → ListAt h b x xs
    → length xs < k
    → plus k x h ≡ number_or_error h xs (wrap (sum_values h xs))
unfolding plus
plus-sum_values h b k x xs r l lt =
    rw (fold_loop_lem add_word h b xs k 0 x l lt, fold_add h 0 xs (omega arith), zero-add)
      (new_number h xs (wrap (sum_values h xs)) r)

-- `(* x ...)` is the product of its arguments modulo 2 ^ 64, in a new number. If an argument is
-- no number, it is `not-a-number` with the first such argument, and the heap stays the same.
pub multiply-product_values :
    (h : Heap) (b k x : ℕ) (xs : List ℕ)
    → Room 1 h
    → ListAt h b x xs
    → length xs < k
    → multiply k x h ≡ number_or_error h xs (wrap (product_values h xs))
unfolding multiply
multiply-product_values h b k x xs r l lt =
    rw (fold_loop_lem mul_word h b xs k 1 x l lt, fold_mul h 1 xs (omega arith), one-mul)
      (new_number h xs (wrap (product_values h xs)) r)
