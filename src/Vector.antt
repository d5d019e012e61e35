-- ===== src/Vector.antt =====
-- src/vector.c: vectors of cells. An element is a copy of the cell of a character or a number,
-- and a `TREF` to any other object.
pub mod Access
use mes.Base.{ℕ, zero, suc, ◌+◌, not, ◌&&◌, ◌==◌, if◌then◌else◌, is_negative, slt}
use mes.Core.{car, cdr, list_length}
use mes.Heap.{
  Heap, not_a_number, object, Run, ok, abort, out_of_fuel, ◌>>=◌, ◌>>◌, pure, error, type_at,
  car_at, cdr_at, cell, put,
}
use mes.Heap.Alloc.{alloc, copy_cell, cell_ref, cons, make_char, make_number, make_ref}
use mes.Heap.Const.{t_char, t_number, t_ref, t_vector, cell_nil, cell_unspecified}

unfoldable pub vector_entry : ℕ → Heap → Run Heap ℕ
vector_entry x h =
    if not (type_at h x == t_char) && not (type_at h x == t_number) then make_ref x h else ok x h

-- The fill loop at index `i`, with `n` rounds left.
unfoldable pub fill_loop : ℕ → ℕ → ℕ → ℕ → Heap → Run Heap (Unit {0})
fill_loop zero i v e = pure tt
fill_loop (suc n) i v e = do x ← vector_entry e; copy_cell (cell_ref v i) x; fill_loop n (i + 1) v e

unfoldable pub make_vector_ : ℕ → ℕ → Heap → Run Heap ℕ
make_vector_ k e = do
  x ← alloc 1
  v ← alloc k
  put x (cell t_vector k v)
  fill_loop (if is_negative k then 0 else k) 0 v e
  pure x

unfoldable pub vector_length : ℕ → Heap → Run Heap ℕ
vector_length x h = if type_at h x == t_vector then make_number (car_at h x) h else abort

-- The object that the element cell `e` stands for: numbers and characters are boxed anew.
unfoldable pub entry_object : ℕ → Heap → Run Heap ℕ
entry_object e h =
    let e' = if type_at h e == t_ref then car_at h e else e in
    (do
      e'' ← (λ h. if type_at h e' == t_char then make_char (cdr_at h e') h else ok e' h)
      λ h. if type_at h e'' == t_number then make_number (cdr_at h e'') h else ok e'' h)
      h

-- `i` is a word, compared as a `long`.
unfoldable pub vector_ref_ : ℕ → ℕ → Heap → Run Heap ℕ
vector_ref_ x i h =
    if not (type_at h x == t_vector)
    then abort
    else if not (slt i (car_at h x))
    then abort
    else entry_object (cell_ref (cdr_at h x) i) h

unfoldable pub vector_ref : ℕ → ℕ → Heap → Run Heap ℕ
vector_ref x i h = vector_ref_ x (cdr_at h i) h

unfoldable pub vector_set_x_ : ℕ → ℕ → ℕ → Heap → Run Heap ℕ
vector_set_x_ x i e h =
    if not (type_at h x == t_vector)
    then abort
    else if not (slt i (car_at h x))
    then abort
    else (do
      y ← vector_entry e
      λ h. copy_cell (cell_ref (cdr_at h x) i) y h
      pure cell_unspecified)
        h

unfoldable pub vector_set_x : ℕ → ℕ → ℕ → Heap → Run Heap ℕ
vector_set_x x i e h = vector_set_x_ x (cdr_at h i) e h

-- The copy loop of `list->vector` from the pair `x` to the element cell `p`.
unfoldable pub list_to_vector_loop : ℕ → ℕ → ℕ → Heap → Run Heap (Unit {0})
list_to_vector_loop zero x p h = out_of_fuel
list_to_vector_loop (suc k) x p h =
    let rest =
      (do a ← car x; y ← vector_entry a; copy_cell p y; d ← cdr x; list_to_vector_loop k d (p + 1))
        h in
    if x == cell_nil then ok tt h else rest

unfoldable pub list_to_vector : ℕ → ℕ → Heap → Run Heap ℕ
list_to_vector k x = do
  n ← list_length k x
  v ← make_vector_ n cell_unspecified
  λ h. list_to_vector_loop k x (cdr_at h v) h
  pure v

-- The loop of `vector->list` with the elements below `i` still to be consed.
unfoldable pub vector_to_list_loop : ℕ → ℕ → ℕ → Heap → Run Heap ℕ
vector_to_list_loop zero v x = pure x
vector_to_list_loop (suc i) v x = do
  x' ← (λ h.
      let e = cell_ref (cdr_at h v) i in cons (if type_at h e == t_ref then car_at h e else e) x h)
  vector_to_list_loop i v x'

unfoldable pub vector_to_list : ℕ → Heap → Run Heap ℕ
vector_to_list v h = vector_to_list_loop (car_at h v) v cell_nil h

unfoldable pub make_vector : ℕ → Heap → Run Heap ℕ
make_vector x h =
    let k = car_at h x in
    if type_at h k == t_number
    then make_vector_ (cdr_at h k)
        (if cdr_at h x == cell_nil then cell_unspecified else car_at h (cdr_at h x)) h
    else error not_a_number (object k) h
