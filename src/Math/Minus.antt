-- ===== src/Math/Minus.antt =====
-- `-` of src/math.c: the difference, or the negation of a single argument.
use mes.Base.{
  ℕ, ◌+◌, ◌^◌, ◌<◌, ◌≡◌, inl, inr, List, [], ◌∷◌, arith, ◌==◌, if◌then◌else◌, Bool-cases, length,
  wrap, sub_word, neg_word,
}
use mes.Core.Pair.{cdr_ok}
use mes.Heap.{Heap, type_at, cdr_at}
use mes.Heap.Agree.{Room, ListAt}
use mes.Heap.Const.{t_number, cell_nil}
use mes.Math.{value_at, minus}
use mes.Math.Sum.{sum_values, fold_values, fold_loop_lem, fold_sub, number_or_error, new_number}

-- What is subtracted, and from what.
abbrev pub minuend : Heap → ℕ → List ℕ → ℕ
minuend h e [] = 0
minuend h e (x ∷ xs) = value_at h e

abbrev pub subtrahend : Heap → ℕ → List ℕ → ℕ
subtrahend h e [] = value_at h e
subtrahend h e (x ∷ xs) = sum_values h (x ∷ xs)

minus_run :
    (h : Heap) (b k e x v : ℕ) (xs : List ℕ)
    → Room 1 h
    → ListAt h b x (e ∷ xs)
    → length xs < k
    → (if cdr_at h x == cell_nil then neg_word (value_at h e) else value_at h e) ≡ v
    → minus k x h ≡ number_or_error h (e ∷ xs) (fold_values sub_word h v xs)
unfolding minus
minus_run h b k e x v xs r (ne, lb, t, c, l) lt start =
    elim (Bool-cases (type_at h e == t_number)) [
      | inl y ↦
          simp (cdr_ok x h t, c, y, start)
            (rw (fold_loop_lem sub_word h b xs k v (cdr_at h x) l lt)
              (new_number h xs (fold_values sub_word h v xs) r))
      | inr n ↦ simp (c, n)
    ]

-- `(- n)` and `(- n x ...)`: with rounds enough the result `d` is a new number, so that `d` and the
-- other arguments add up to `n`, or `d` and `n` to 0 if there are no others, modulo 2 ^ 64. If an
-- argument is no number, it is `not-a-number` with the first such argument, and the heap stays the
-- same.
pub minus-difference :
    (h : Heap) (b k e x : ℕ) (xs : List ℕ)
    → Room 1 h
    → ListAt h b x (e ∷ xs)
    → length xs < k
    → value_at h e < 2 ^ 64
    → (d : ℕ) × (minus k x h ≡ number_or_error h (e ∷ xs) d)
      × (d < 2 ^ 64)
      × (wrap (d + subtrahend h e xs) ≡ minuend h e xs)
minus-difference h b k e x [] r l lt small =
    let start : (if cdr_at h x == cell_nil then neg_word (value_at h e) else value_at h e)
        ≡ neg_word (value_at h e) =
      ground arith in
    (neg_word (value_at h e), minus_run h b k e x _ [] r l lt start, omega arith, omega arith)
minus-difference h b k e x (y ∷ ys) r (ne, lb, t, c, l) lt small =
    let start : (if cdr_at h x == cell_nil then neg_word (value_at h e) else value_at h e)
        ≡ value_at h e =
      ground arith in
    let (less, sum) = fold_sub h (value_at h e) (y ∷ ys) small in
    (
      fold_values sub_word h (value_at h e) (y ∷ ys),
      minus_run h b k e x _ (y ∷ ys) r (ne, lb, t, c, l) lt start,
      less,
      sum,
    )
