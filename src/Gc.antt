-- ===== src/Gc.antt =====
-- The copying collector of src/gc.c. Pointers and distances count cells.
pub mod Elements
pub mod Copy
pub mod Later
pub mod Scan
pub mod Snapshot
pub mod Space
pub mod Forward
pub mod Fresh
pub mod Step
pub mod Open
pub mod Relocate
pub mod Roots
pub mod Registers
pub mod Gather
pub mod Shift
pub mod Flip
pub mod Carry
pub mod Preserve
pub mod Whole
pub mod Loop
pub mod Collect
pub mod Drive
pub mod Grow
use mes.Base.{
  ℕ, zero, suc, ◌+◌, ◌-◌, ◌*◌, ◌/◌, Bool, ◌&&◌, ◌||◌, ltb, leb, ◌==◌, if◌then◌else◌, length,
  is_negative, sub_word,
}
use mes.Heap.{
  Heap, Run, ok, abort, out_of_fuel, ◌>>=◌, ◌>>◌, type_at, car_at, cdr_at, cell, write, write_car,
  write_cdr,
}
use mes.Heap.Alloc.{bytes_cells}
use mes.Heap.Const.{
  t_bytes, t_closure, t_continuation, t_keyword, t_macro, t_pair, t_port, t_ref, t_special,
  t_string, t_struct, t_symbol, t_values, t_binding, t_vector, t_broken_heart,
}
use mes.Machine.{Machine, on_heap}

-- The cells whose first word is a pointer, and those whose second is, as `gc_loop` tests them.
unfoldable pub points_car : ℕ → Bool
points_car t = (t == t_macro) || ((t == t_pair) || ((t == t_ref) || (t == t_binding)))

unfoldable pub points_cdr : ℕ → Bool
points_cdr t =
    (t == t_closure)
    || ((t == t_continuation)
        || ((t == t_keyword)
            || ((t == t_macro)
                || ((t == t_pair)
                    || ((t == t_port)
                        || ((t == t_special)
                            || ((t == t_string) || ((t == t_symbol) || (t == t_values)))))))))

-- `gc_cellcpy` also moves the second word of bytes, structs and vectors.
pub moves_cdr : ℕ → Bool
moves_cdr t = points_cdr t || ((t == t_bytes) || ((t == t_struct) || (t == t_vector)))

-- The loop that copies `n` element cells from `from` to `g_free`.
unfoldable pub copy_elements : ℕ → ℕ → Heap → Heap
copy_elements zero from h = h
copy_elements (suc n) from h = copy_elements n (from + 1) (
    write (record h { free = h.free + 1 }) h.free
      (cell (type_at h from) (car_at h from) (cdr_at h from)))

-- `memcpy (dest, src, length)` between the bytes of two cells.
abbrev pub copy_cell_bytes : ℕ → ℕ → ℕ → Heap → Heap
copy_cell_bytes new old length h = record h {
  bytes = λ q i. if (q == new) && ltb i length then h.bytes old i else h.bytes q i;
}

-- The new copy of the cell `old`, with what hangs on it, at `g_free`.
unfoldable pub copy_object : ℕ → Heap → Heap
copy_object old h =
    let new = h.free in
    let t = type_at h old in
    let length = car_at h old in
    let h' = write (record h { free = new + 1 }) new (cell t length (cdr_at h old)) in
    if (t == t_struct) || (t == t_vector)
    then copy_elements (if is_negative length then 0 else length) (cdr_at h old)
        (write h' new (cell t length (new + 1)))
    else if t == t_bytes
    then copy_cell_bytes new old length (record h' { free = new + 1 + (bytes_cells length - 1) })
    else h'

-- The broken heart: `old` now holds its new address.
abbrev pub forward : ℕ → ℕ → Heap → Heap
forward old new h = write h old (cell t_broken_heart new (cdr_at h old))

unfoldable pub gc_copy : ℕ → Heap → Run Heap ℕ
gc_copy old h =
    if type_at h old == t_broken_heart
    then ok (car_at h old) h
    else ok h.free (forward old h.free (copy_object old h))

-- One round of `gc_loop` at `scan`: the pointers of the cell are replaced by copies.
unfoldable pub relocate_car : ℕ → Heap → Run Heap (Unit {0})
relocate_car scan h =
    if points_car (type_at h scan)
    then (do a ← gc_copy (car_at h scan); λ h. ok tt (write_car h scan a)) h
    else ok tt h

-- The type is the one read at the start of the round.
unfoldable pub relocate_cdr : ℕ → ℕ → Heap → Run Heap (Unit {0})
relocate_cdr t scan h =
    if points_cdr t
    then (do d ← gc_copy (cdr_at h scan); λ h. ok tt (write_cdr h scan d)) h
    else ok tt h

-- The cells that the object at `scan` takes.
abbrev pub object_cells : Heap → ℕ → ℕ → ℕ
object_cells h t scan = if t == t_bytes then bytes_cells (car_at h scan) else 1

unfoldable pub scan_cell : ℕ → Heap → Run Heap ℕ
scan_cell scan h =
    let t = type_at h scan in
    if t == t_broken_heart
    then abort
    else (do relocate_car scan; relocate_cdr t scan; λ h. ok (scan + object_cells h t scan) h) h

-- `gc_loop` up to its call of `gc_flip`.
unfoldable pub scan_loop : ℕ → ℕ → Heap → Run Heap (Unit {0})
scan_loop zero scan h = out_of_fuel
scan_loop (suc k) scan h =
    let rest = (do scan' ← scan_cell scan; scan_loop k scan') h in
    if ltb scan h.free then rest else ok tt h

-- The copy with relocation, of the cells that `left` counts, from `src` down to `dest`; `dist` is
-- the distance.
unfoldable pub gc_cellcpy_loop : ℕ → ℕ → ℕ → ℕ → ℕ → Heap → Run Heap (Unit {0})
gc_cellcpy_loop zero dist dest src left h = out_of_fuel
gc_cellcpy_loop (suc k) dist dest src left h =
    let t = type_at h src in
    let a = car_at h src in
    let d = cdr_at h src in
    let h' = write h dest (
      cell t (if points_car t then sub_word a dist else a)
        (if moves_cdr t then sub_word d dist else d)) in
    let size = if t == t_bytes then bytes_cells a else 1 in
    let rest =
      gc_cellcpy_loop k dist (dest + size) (src + size) (sub_word left size)
        (if t == t_bytes then copy_cell_bytes dest src a h' else h') in
    if left == 0 then ok tt h else if t == t_broken_heart then abort else rest

unfoldable pub gc_cellcpy : ℕ → ℕ → ℕ → ℕ → Heap → Run Heap (Unit {0})
gc_cellcpy k dest src n h = gc_cellcpy_loop k (src - dest) dest src n h

-- `news` is `g_news`.
unfoldable pub gc_flip : ℕ → ℕ → Machine → Run Machine (Unit {0})
gc_flip k news m =
    let base = m.heap.base in
    let used = m.heap.free - news in
    let dist = news - base in
    let m = record m { jam_size = if ltb m.jam_size used then used * 3 / 2 else m.jam_size } in
    (do
      on_heap (gc_cellcpy k base news used)
      λ m. ok tt (record m {
        heap = record (m.heap) { free = m.heap.free - dist };
        symbols = m.symbols - dist;
        macros = m.macros - dist;
        ports = m.ports - dist;
        hash_table_type = m.hash_table_type - dist;
        variable_type = m.variable_type - dist;
        m0 = m.m0 - dist;
        m1 = m.m1 - dist;
        stack_array = λ i.
            if leb m.stack i && ltb i m.stack_size then m.stack_array i - dist else m.stack_array i;
      }))
      m
