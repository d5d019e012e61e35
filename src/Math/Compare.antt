-- ===== src/Math/Compare.antt =====
-- `<` and `=` of src/math.c.
use mes.Base.{
  ℕ, zero, suc, ◌<◌, ◌≡◌, refl, ap, ◌↔◌, inl, inr, Bool, true, false, not, List, [], ◌∷◌, arith,
  ◌==◌, if◌then◌else◌, ==_iff, Bool-cases, length, slt, sle,
}
use mes.Core.{truth}
use mes.Core.Pair.{car_ok, cdr_ok}
use mes.Heap.{Heap, ok, type_at, cdr_at}
use mes.Heap.Agree.{ListAt}
use mes.Heap.Const.{t_number, cell_nil, cell_t}
use mes.Math.{assert_number, value_at, compare_loop, compare_all, less_p, is_p}

abbrev pub Numbers : Heap → List ℕ → Type 0
Numbers h [] = Unit {0}
Numbers h (x ∷ xs) = (type_at h x ≡ t_number) × Numbers h xs

-- Each value stands in order after the one before it.
abbrev ordered : (ℕ → ℕ → Bool) → Heap → ℕ → List ℕ → Bool
ordered keep h n [] = true
ordered keep h n (x ∷ xs) =
    if keep (value_at h x) n then ordered keep h (value_at h x) xs else false

compare_loop_lem :
    (check : Bool) (keep : ℕ → ℕ → Bool) (h : Heap) (b : ℕ) (xs : List ℕ) (k n x : ℕ)
    → (check ≡ true → Numbers h xs)
    → ListAt h b x xs
    → length xs < k
    → compare_loop check keep k n x h ≡ ok (truth (ordered keep h n xs)) h
unfolding compare_loop
compare_loop_lem check keep h b xs zero n x num l lt = absurd (omega arith)
compare_loop_lem check keep h b [] (suc k) n x num l lt = ground arith
compare_loop_lem check keep h b (e ∷ xs) (suc k) n x num (ne, lb, t, c, l) lt =
    let nn : (x == cell_nil) ≡ false = ground arith in
    let ih =
      compare_loop_lem check keep h b xs k (value_at h e) (cdr_at h x) (λ y. (num y).1) l
        (omega arith) in
    let first : (if check then assert_number e h else ok tt h) ≡ ok tt h =
      first_ok check (λ y. (num y).0) in
    elim (Bool-cases (keep (value_at h e) n)) [
      | inl y ↦ simp (nn, car_ok x h t, cdr_ok x h t, c, first, y) ih
      | inr y ↦ simp (nn, car_ok x h t, c, first, y)
    ]
  where
    first_ok :
        (ch : Bool)
        → (ch ≡ true → type_at h e ≡ t_number)
        → (if ch then assert_number e h else ok tt h) ≡ ok tt h
    first_ok true f = rw (f refl)
    first_ok false f = refl

-- The first value is below all others, as a `long`.
abbrev pub Below : Heap → ℕ → List ℕ → Type 0
Below h n [] = Unit {0}
Below h n (x ∷ xs) = (slt n (value_at h x) ≡ true) × Below h n xs

-- Every value is below every later one.
abbrev pub Increasing : Heap → List ℕ → Type 0
Increasing h [] = Unit {0}
Increasing h (x ∷ xs) = Below h (value_at h x) xs × Increasing h xs

Below-trans : (h : Heap) (n m : ℕ) (xs : List ℕ) → slt n m ≡ true → Below h m xs → Below h n xs
Below-trans h n m [] lt b = tt
Below-trans h n m (x ∷ xs) lt (p, b) = (ground arith, Below-trans h n m xs lt b)

abbrev follows : ℕ → ℕ → Bool
follows v n = not (sle v n)

ordered-Increasing :
    (h : Heap) (n : ℕ) (xs : List ℕ)
    → ordered follows h n xs ≡ true
    → Below h n xs × Increasing h xs
ordered-Increasing h n [] e = (tt, tt)
ordered-Increasing h n (x ∷ xs) e = elim (Bool-cases (follows (value_at h x) n)) [
  | inl y ↦
      let (b, i) = ordered-Increasing h (value_at h x) xs (rw y at e) in
      ((ground arith, Below-trans h n (value_at h x) xs (ground arith) b), (b, i))
  | inr y ↦ cc (rw y at e)
]

Increasing-ordered :
    (h : Heap) (n : ℕ) (xs : List ℕ)
    → Below h n xs
    → Increasing h xs
    → ordered follows h n xs ≡ true
Increasing-ordered h n [] b i = refl
Increasing-ordered h n (x ∷ xs) (p, b) (c, i) =
    let y : follows (value_at h x) n ≡ true = ground arith in
    rw y (Increasing-ordered h (value_at h x) xs c i)

less_p_lem :
    (h : Heap) (b k e x : ℕ) (xs : List ℕ)
    → Numbers h (e ∷ xs)
    → ListAt h b x (e ∷ xs)
    → length xs < k
    → less_p k x h ≡ ok (truth (ordered follows h (value_at h e) xs)) h
unfolding less_p compare_all
less_p_lem h b k e x xs (ty, num) (ne, lb, t, c, l) lt =
    let nn : (x == cell_nil) ≡ false = ground arith in
    let isnum : (type_at h e == t_number) ≡ true = ground arith in
    simp (nn, c, isnum)
      (compare_loop_lem true follows h b xs k (value_at h e) (cdr_at h x) (λ y. num) l lt)

-- `(< x ...)` of one number or more, given rounds enough, returns and leaves the heap as it is;
-- the result is `#t` exactly when each value, read as a `long`, is below every later one.
pub less_p-Increasing :
    (h : Heap) (b k e x : ℕ) (xs : List ℕ)
    → Numbers h (e ∷ xs)
    → ListAt h b x (e ∷ xs)
    → length xs < k
    → (r : ℕ) × (less_p k x h ≡ ok r h) × ((r ≡ cell_t) ↔ Increasing h (e ∷ xs))
less_p-Increasing h b k e x xs num l lt =
    let o = ordered follows h (value_at h e) xs in
    (
      truth o,
      less_p_lem h b k e x xs num l lt,
      (
        λ y. ordered-Increasing h (value_at h e) xs (truth_true o y),
        λ (p, i). ap truth (Increasing-ordered h (value_at h e) xs p i),
      ),
    )
  where
    truth_true : (o : Bool) → truth o ≡ cell_t → o ≡ true
    truth_true true y = refl
    truth_true false y = absurd (omega arith)

-- All values are `n`.
abbrev pub AllEqual : Heap → ℕ → List ℕ → Type 0
AllEqual h n [] = Unit {0}
AllEqual h n (x ∷ xs) = (value_at h x ≡ n) × AllEqual h n xs

AllEqual-iff :
    (h : Heap) (n : ℕ) (xs : List ℕ)
    → (truth (ordered (λ v m. v == m) h n xs) ≡ cell_t) ↔ AllEqual h n xs
AllEqual-iff h n [] = (λ y. tt, λ y. refl)
AllEqual-iff h n (x ∷ xs) = elim (Bool-cases (value_at h x == n)) [
  | inl y ↦
      let e : value_at h x ≡ n = (==_iff _ _).0 y in
      rw (y, e, value_at)
        (λ z. (refl, (AllEqual-iff h n xs).0 z), λ (p, z). (AllEqual-iff h n xs).1 z)
  | inr y ↦ rw y (λ z. absurd (omega arith), λ (p, z). absurd (ground arith))
]

-- `(= x ...)` checks only that its first argument is a number. Given rounds enough it returns on
-- every list of arguments that begins with a number, and leaves the heap as it is; the result is
-- `#t` exactly when all of them, numbers or not, hold the same word.
pub is_p-AllEqual :
    (h : Heap) (b k e x : ℕ) (xs : List ℕ)
    → type_at h e ≡ t_number
    → ListAt h b x (e ∷ xs)
    → length xs < k
    → (r : ℕ) × (is_p k x h ≡ ok r h) × ((r ≡ cell_t) ↔ AllEqual h (value_at h e) xs)
unfolding is_p compare_all
is_p-AllEqual h b k e x xs ty (ne, lb, t, c, l) lt =
    let nn : (x == cell_nil) ≡ false = ground arith in
    let isnum : (type_at h e == t_number) ≡ true = ground arith in
    (
      truth (ordered (λ v n. v == n) h (value_at h e) xs),
      simp (nn, c, isnum, cdr_ok x h t)
          (compare_loop_lem false (λ v n. v == n) h b xs k (value_at h e) (cdr_at h x) (λ y. cc) l
            lt),
      AllEqual-iff h (value_at h e) xs,
    )
