-- ===== src/Tests/Math.antt =====
-- src/math.c on numbers of the sample heap.
use mes.Base.{ℕ, ◌+◌, ◌^◌, ◌<◌, ◌≡◌, refl, ◌↔◌, [], ◌∷◌, arith, wrap}
use mes.Heap.{Heap, Run, ok, cell}
use mes.Heap.Agree.{grow, ListAt}
use mes.Heap.Const.{t_number, cell_t}
use mes.Math.{plus, multiply, minus, less_p, is_p, divide, modulo}
use mes.Math.Compare.{Increasing, less_p-Increasing, AllEqual, is_p-AllEqual}
use mes.Math.Divide.{modulo-floor_mod, divide-product_values, divide-negative}
use mes.Math.Minus.{minus-difference}
use mes.Math.Sum.{plus-sum_values, multiply-product_values}
use mes.Tests.{sample, sample-Room}

abbrev numbers_7_2 : ListAt sample 50 24 (20 ∷ 21 ∷ [])
numbers_7_2 = (omega arith, omega arith, refl, refl, (omega arith, omega arith, refl, refl, refl))

abbrev numbers_2_7 : ListAt sample 50 26 (21 ∷ 20 ∷ [])
numbers_2_7 = (omega arith, omega arith, refl, refl, (omega arith, omega arith, refl, refl, refl))

abbrev result : ℕ → Run Heap ℕ
result n = ok 50 (grow sample (cell t_number 0 n))

plus-sum_values_example : plus 9 24 sample ≡ result 9
plus-sum_values_example =
    plus-sum_values sample 50 9 24 (20 ∷ 21 ∷ []) (sample-Room (omega arith)) numbers_7_2
      (omega arith)

multiply-product_values_example : multiply 9 24 sample ≡ result 14
multiply-product_values_example =
    multiply-product_values sample 50 9 24 (20 ∷ 21 ∷ []) (sample-Room (omega arith)) numbers_7_2
      (omega arith)

less_p-Increasing_example :
    (r : ℕ) × (less_p 9 26 sample ≡ ok r sample) × ((r ≡ cell_t) ↔ Increasing sample (21 ∷ 20 ∷ []))
less_p-Increasing_example =
    less_p-Increasing sample 50 9 21 26 (20 ∷ []) (refl, (refl, tt)) numbers_2_7 (omega arith)

is_p-AllEqual_example :
    (r : ℕ) × (is_p 9 26 sample ≡ ok r sample) × ((r ≡ cell_t) ↔ AllEqual sample 2 (20 ∷ []))
is_p-AllEqual_example = is_p-AllEqual sample 50 9 21 26 (20 ∷ []) refl numbers_2_7 (omega arith)

-- -7 modulo 2 is 1.
modulo-floor_mod_example : modulo 9 22 21 sample ≡ result 1
modulo-floor_mod_example =
    modulo-floor_mod 8 22 21 sample (sample-Room (omega arith)) refl refl (omega arith)
      (omega arith) (omega arith) (λ y. omega arith)

divide-product_values_example : divide 9 24 sample ≡ result 3
divide-product_values_example =
    divide-product_values sample 50 9 20 24 (21 ∷ []) (sample-Room (omega arith)) refl
      (refl, omega arith, omega arith, tt) numbers_7_2 (omega arith)

-- 7 divided by -3.
divide-negative_example : divide 9 42 sample ≡ result 0
divide-negative_example =
    divide-negative sample 50 7 20 23 42 (sample-Room (omega arith)) refl refl (omega arith)
      (omega arith) refl
      (omega arith, omega arith, refl, refl, (omega arith, omega arith, refl, refl, refl))

minus-difference_example :
    (d : ℕ) × (minus 9 24 sample ≡ result d) × (d < 2 ^ 64) × (wrap (d + 2) ≡ 7)
minus-difference_example =
    minus-difference sample 50 9 20 24 (21 ∷ []) (sample-Room (omega arith)) numbers_7_2
      (omega arith) (omega arith)
