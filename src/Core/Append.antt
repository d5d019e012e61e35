-- ===== src/Core/Append.antt =====
-- `append_reverse` of src/core.c, which builds a list in new cells.
use mes.Base.{
  ℕ, zero, suc, ◌+◌, ◌≤◌, ◌<◌, ◌≡◌, refl, ◌∙◌, ◌≢◌, false, List, [], ◌∷◌, reverse_aux, arith, ◌==◌,
  length,
}
use mes.Core.{append_reverse_loop, append_reverse}
use mes.Heap.{Heap, Run, ok, car_at, cdr_at, cell}
use mes.Heap.Agree.{
  Extends, Room, grow, make_cell_ok, Room-grow, Extends-refl, Extends-grow, Extends-trans, ListAt,
  ListAt-frame, ListAt-cons,
}
use mes.Heap.Const.{t_pair, cell_nil}

-- A run that returns a list at `at`, in a heap that has `n` cells more.
pub record Builds (h : Heap) (n : ℕ) (xs : List ℕ) (run : Run Heap ℕ) : Type 0 where
  pub at : ℕ
  pub heap : Heap
  pub returns : run ≡ ok at heap
  pub list : ListAt heap heap.free at xs
  pub extends : Extends h heap
  pub count : heap.free ≡ h.free + n

abbrev after_cons : ℕ → ℕ → Heap → Heap
after_cons x y h = grow h (cell t_pair (car_at h x) y)

append_reverse_loop_step :
    {n : ℕ} (k x y : ℕ) (h : Heap)
    → Room (suc n) h
    → x ≢ cell_nil
    → append_reverse_loop (suc k) x y h
      ≡ append_reverse_loop k (cdr_at (after_cons x y h) x) h.free (after_cons x y h)
unfolding append_reverse_loop
append_reverse_loop_step k x y h r ne =
    let e : (x == cell_nil) ≡ false = ground arith in rw (e, make_cell_ok t_pair (car_at h x) y h r)

-- What a later part of the run builds, the run builds.
Builds-after :
    {h g : Heap} {n : ℕ} {xs : List ℕ} {run run' : Run Heap ℕ}
    → run ≡ run'
    → Extends h g
    → g.free ≡ h.free + 1
    → Builds g n xs run'
    → Builds h (suc n) xs run
Builds-after e x f b = record {
  at = b.at;
  heap = b.heap;
  returns = e ∙ b.returns;
  list = b.list;
  extends = Extends-trans x b.extends;
  count = omega (arith, b.count, f);
}

append_reverse_loop-Builds :
    (xs ys : List ℕ) (k x y b : ℕ) (h : Heap)
    → Room (length xs) h
    → cell_nil < h.free
    → b ≤ h.free
    → ListAt h b x xs
    → ListAt h h.free y ys
    → length xs < k
    → Builds h (length xs) (reverse_aux xs ys) (append_reverse_loop k x y h)
unfolding append_reverse_loop
append_reverse_loop-Builds xs ys zero x y b h r nil le lx ly lt = absurd (omega arith)
append_reverse_loop-Builds [] ys (suc k) x y b h r nil le lx ly lt = record {
  at = y;
  heap = h;
  returns = ground arith;
  list = ly;
  extends = Extends-refl h;
  count = omega arith;
}
append_reverse_loop-Builds (a ∷ xs) ys (suc k) x y b h r nil le (ne, lb, t, c, lx) ly lt =
    let g = after_cons x y h in
    let e : cdr_at g x ≡ cdr_at h x = ground arith in
    let lx' : ListAt g b (cdr_at g x) xs =
      rw (e, cdr_at)
        (ListAt-frame h g b b (cdr_at h x) xs (omega arith) (λ q l. ground arith) lx) in
    let ly' : ListAt g g.free h.free (a ∷ ys) =
      rw (← c, car_at) (ListAt-cons h (car_at h x) y ys r nil ly) in
    Builds-after (append_reverse_loop_step k x y h r ne) (Extends-grow h _) refl (
      append_reverse_loop-Builds xs (a ∷ ys) k (cdr_at g x) h.free b g (Room-grow h _ r)
        (omega arith) (omega arith) lx' ly' (omega arith))

-- `append-reverse` of two lists is the reversed first list before the second. It allocates one
-- cell for each element of the first list, and nothing that stood in the heap changes.
pub append_reverse-Builds :
    (xs ys : List ℕ) (k x y : ℕ) (h : Heap)
    → Room (length xs) h
    → cell_nil < h.free
    → ListAt h h.free x xs
    → ListAt h h.free y ys
    → length xs < k
    → Builds h (length xs) (reverse_aux xs ys) (append_reverse k x y h)
unfolding append_reverse
append_reverse-Builds [] ys k x y h r nil lx ly lt = record {
  at = y;
  heap = h;
  returns = ground arith;
  list = ly;
  extends = Extends-refl h;
  count = omega arith;
}
append_reverse-Builds (a ∷ xs) ys k x y h r nil (ne, lb, t, c, lx) ly lt =
    let no_nil : (x == cell_nil) ≡ false = ground arith in
    rw (no_nil, t)
      (append_reverse_loop-Builds (a ∷ xs) ys k x y h.free h r nil (omega arith) (ne, lb, t, c, lx)
        ly lt)
