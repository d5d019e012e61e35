-- ===== src/Tests/Sort.antt =====
-- Sorting three numbers.
use mes.Base.{arith, ltb, ◌==◌, if◌then◌else◌}
use mes.Libc.Sort.{negative, nought, positive, Array, Comparison, qsort}
use mes.Libc.Sort.Order.{Sorts, qsort-Sorts}
use mes.Libc.Sort.Part.{IsKeyed}

abbrev by_value : Comparison
by_value x y = if ltb x y then negative else if x == y then nought else positive

abbrev three : Array
three t = if t == 0 then 5 else if t == 1 then 9 else 2

by_value-IsKeyed : IsKeyed by_value (λ x. x)
by_value-IsKeyed = record {
  less = λ x y l. ground arith;
  same = λ x y e. ground arith;
  more = λ x y l. ground arith;
}

qsort-Sorts_example : Sorts (λ x. x) 0 3 three (qsort 8 by_value 0 3 three)
qsort-Sorts_example =
    qsort-Sorts by_value (λ x. x) 8 0 3 three by_value-IsKeyed (λ s t ls us lt ut e. ground arith)
      (omega arith)
