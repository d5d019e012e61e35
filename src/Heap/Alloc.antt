-- ===== src/Heap/Alloc.antt =====
-- Allocation in src/gc.c: `alloc`, the `make_*` functions and `copy_cell`.
use mes.Base.{ℕ, ◌+◌, ◌-◌, ◌/◌, ◌&&◌, ltb, ◌==◌, if◌then◌else◌, length, add_word, sub_word}
use mes.Heap.{
  Heap, Key, object, Run, ok, abort, ◌>>=◌, ◌>>◌, pure, error, type_at, car_at, cdr_at, cell, write,
  write_cdr, put,
}
use mes.Heap.Const.{
  t_char, t_bytes, t_continuation, t_macro, t_number, t_pair, t_ref, t_string, cell_f,
}

-- The address of the `n` new cells. `n` is a word, and the check compares unsigned words.
unfoldable pub alloc : ℕ → Heap → Run Heap ℕ
alloc n h =
    let h' = record h { free = add_word h.free n } in
    if ltb h.arena_size (sub_word h'.free h.base) then abort else ok h.free h'

unfoldable pub make_cell : ℕ → ℕ → ℕ → Heap → Run Heap ℕ
make_cell t a d h =
    let h' = record h { free = h.free + 1 } in
    if ltb h.arena_size (h'.free - h.base) then abort else ok h.free (write h' h.free (cell t a d))

-- The same code over the other names of the two words.
abbrev pub make_pointer_cell : ℕ → ℕ → ℕ → Heap → Run Heap ℕ
make_pointer_cell t a d = make_cell t a d

abbrev pub make_value_cell : ℕ → ℕ → ℕ → Heap → Run Heap ℕ
make_value_cell t a d = make_cell t a d

unfoldable pub copy_cell : ℕ → ℕ → Heap → Run Heap (Unit {0})
copy_cell to from h = ok tt (write h to (cell (type_at h from) (car_at h from) (cdr_at h from)))

abbrev pub cell_ref : ℕ → ℕ → ℕ
cell_ref p index = p + index

abbrev pub cons : ℕ → ℕ → Heap → Run Heap ℕ
cons x y = make_cell t_pair x y

abbrev pub acons : ℕ → ℕ → ℕ → Heap → Run Heap ℕ
acons key value alist = do p ← cons key value; cons p alist

-- The number of cells that `length` bytes take; a `long` and a pointer have eight bytes.
abbrev pub bytes_cells : ℕ → ℕ
bytes_cells length = (8 + 8 + length - 1 + 8) / 8

-- The third word and the bytes are left as they are.
unfoldable pub make_bytes : ℕ → Heap → Run Heap ℕ
make_bytes length = do
  x ← alloc (bytes_cells length)
  λ h. put x (cell t_bytes length (cdr_at h x)) h
  pure x

abbrev pub make_char : ℕ → Heap → Run Heap ℕ
make_char n = make_value_cell t_char 0 n

-- `g_stack` is the stack index when the continuation is made.
abbrev pub make_continuation : ℕ → ℕ → Heap → Run Heap ℕ
make_continuation g_stack n = make_value_cell t_continuation n g_stack

abbrev pub make_macro : ℕ → ℕ → Heap → Run Heap ℕ
make_macro name x h = make_cell t_macro x (cdr_at h name) h

abbrev pub make_number : ℕ → Heap → Run Heap ℕ
make_number n = make_value_cell t_number 0 n

abbrev pub make_ref : ℕ → Heap → Run Heap ℕ
make_ref x = make_cell t_ref x 0

-- `memcpy (dest, src, n)` into the bytes of the cell `p`.
abbrev pub copy_bytes : ℕ → (ℕ → ℕ) → ℕ → Heap → Run Heap (Unit {0})
copy_bytes p src n h =
    ok tt (record h { bytes = λ q i. if (q == p) && ltb i n then src i else h.bytes q i })

-- `s` is the memory at the argument `s`.
unfoldable pub make_string : (ℕ → ℕ) → ℕ → Heap → Run Heap ℕ
make_string s length h =
    if ltb h.max_string length
    then error Key.system_error (object cell_f) h
    else (do
      x ← make_pointer_cell t_string length 0
      v ← make_bytes (length + 1)
      copy_bytes v s (length + 1)
      λ h. ok x (write_cdr h x v))
        h
