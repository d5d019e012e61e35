-- ===== src/Struct.antt =====
-- src/struct.c: records whose first two elements are the type and the printer.
pub mod Access
use mes.Base.{ℕ, zero, suc, ◌+◌, ◌-◌, not, ◌==◌, if◌then◌else◌, is_negative, add_word, slt}
use mes.Core.{list_length}
use mes.Heap.{
  Heap, wrong_type_arg, object, named, number, both, Run, ok, abort, ◌>>=◌, ◌>>◌, pure, error,
  type_at, car_at, cdr_at, cell, put,
}
use mes.Heap.Alloc.{alloc, copy_cell, cell_ref, make_number}
use mes.Heap.Const.{t_struct, cell_nil, cell_unspecified}
use mes.Vector.{vector_entry, entry_object}

-- The fill loop of `make_struct` at element `i`, with `n` rounds left; when the field list is at
-- its end the element is `*unspecified*`.
unfoldable pub fields_loop : ℕ → ℕ → ℕ → ℕ → Heap → Run Heap (Unit {0})
fields_loop zero i v fields h = ok tt h
fields_loop (suc n) i v fields h =
    let stop = fields == cell_nil in
    (do
      x ← vector_entry (if stop then cell_unspecified else car_at h fields)
      copy_cell (cell_ref v i) x
      fields_loop n (i + 1) v (if stop then fields else cdr_at h fields))
      h

unfoldable pub make_struct : ℕ → ℕ → ℕ → ℕ → Heap → Run Heap ℕ
make_struct k type fields printer = do
  n ← list_length k fields
  let size = add_word 2 n
  x ← alloc 1
  v ← alloc size
  put x (cell t_struct size v)
  t ← vector_entry type
  copy_cell v t
  p ← vector_entry printer
  copy_cell (cell_ref v 1) p
  fields_loop (if is_negative size then 0 else size - 2) 2 v fields
  pure x

unfoldable pub struct_length : ℕ → Heap → Run Heap ℕ
struct_length x h = if type_at h x == t_struct then make_number (car_at h x) h else abort

-- `assert_struct (pos, x)` of src/lib.c.
abbrev pub assert_struct : ℕ → ℕ → Heap → Run Heap (Unit {0})
assert_struct pos x h =
    if type_at h x == t_struct
    then ok tt h
    else error wrong_type_arg (both (named "<cell:struct>") (both (number pos) (object x))) h

unfoldable pub struct_ref_ : ℕ → ℕ → Heap → Run Heap ℕ
struct_ref_ x i = do
  assert_struct 1 x
  λ h. if slt i (car_at h x) then entry_object (cell_ref (cdr_at h x) i) h else abort

unfoldable pub struct_set_x_ : ℕ → ℕ → ℕ → Heap → Run Heap ℕ
struct_set_x_ x i e h =
    if not (type_at h x == t_struct)
    then abort
    else if not (slt i (car_at h x))
    then abort
    else (do
      y ← vector_entry e
      λ h. copy_cell (cell_ref (cdr_at h x) i) y h
      pure cell_unspecified)
        h

unfoldable pub struct_ref : ℕ → ℕ → Heap → Run Heap ℕ
struct_ref x i h = struct_ref_ x (cdr_at h i) h

unfoldable pub struct_set_x : ℕ → ℕ → ℕ → Heap → Run Heap ℕ
struct_set_x x i e h = struct_set_x_ x (cdr_at h i) e h
