-- ===== src/Machine.antt =====
-- The globals of the collector and the evaluator beside the heap: the registers, the stack and
-- the other roots (include/mes/mes.h).
pub mod Frame
use mes.Base.{ℕ, ◌+◌, ◌-◌, ◌≡◌, ltb, if◌then◌else◌}
use mes.Heap.{Heap, Run, ok, throw, abort, out_of_fuel, ◌>>=◌, ◌>>◌, update}
use mes.Heap.Const.{gc_frame_size, cell_f}

-- `stack_array` is `g_stack_array`, an array of `stack_size` cells; `stack` is `g_stack`, the
-- index of the lowest one in use.
pub record Machine : Type 0 where
  pub heap : Heap
  pub stack : ℕ
  pub stack_size : ℕ
  pub stack_array : ℕ → ℕ
  pub r0 : ℕ
  pub r1 : ℕ
  pub r2 : ℕ
  pub r3 : ℕ
  pub m0 : ℕ
  pub m1 : ℕ
  pub symbols : ℕ
  pub macros : ℕ
  pub ports : ℕ
  pub hash_table_type : ℕ
  pub variable_type : ℕ
  pub symbol_max : ℕ
  pub arena : ℕ
  pub max_arena_size : ℕ
  pub jam_size : ℕ
  pub gc_safety : ℕ
  pub gc_count : ℕ
  pub continuations : ℕ

-- An operation of the heap, as one of the machine.
abbrev pub on_heap : {A : Type 0} → (Heap → Run Heap A) → Machine → Run Machine A
on_heap f m = elim (f m.heap) [
  | ok a h ↦ ok a (record m { heap = h })
  | throw key x h ↦ throw key x (record m { heap = h })
  | abort ↦ abort
  | out_of_fuel ↦ out_of_fuel
]

pub on_heap-ok :
    {A : Type 0} (f : Heap → Run Heap A) {a : A} (m : Machine) {h' : Heap}
    → f (m.heap) ≡ ok a h'
    → on_heap f m ≡ ok a (record m { heap = h' })
on_heap-ok f m e = rw (on_heap, e)

unfoldable pub gc_push_frame : Machine → Run Machine (Unit {0})
gc_push_frame m =
    if ltb m.stack gc_frame_size
    then abort
    else let s = m.stack in
      let a = update m.stack_array (s - 1) cell_f in
      let a = update a (s - 2) m.r0 in
      let a = update a (s - 3) m.r1 in
      let a = update a (s - 4) m.r2 in
      let a = update a (s - 5) m.r3 in
      ok tt (record m { stack_array = a; stack = s - gc_frame_size })

unfoldable pub gc_peek_frame : Machine → Run Machine (Unit {0})
gc_peek_frame m = ok tt (record m {
  r3 = m.stack_array m.stack;
  r2 = m.stack_array (m.stack + 1);
  r1 = m.stack_array (m.stack + 2);
  r0 = m.stack_array (m.stack + 3);
})

unfoldable pub gc_pop_frame : Machine → Run Machine (Unit {0})
gc_pop_frame = do gc_peek_frame; λ m. ok tt (record m { stack = m.stack + gc_frame_size })

-- `push_cc` of src/eval-apply.c: the frame that it pushes holds `p2` as `R2` and the continuation
-- `c` as `R3`, beside the old `R0` and `R1`.
unfoldable pub push_cc : ℕ → ℕ → ℕ → ℕ → Machine → Run Machine (Unit {0})
push_cc p1 p2 a c m =
    let x = m.r3 in
    (do gc_push_frame; λ m. ok tt (record m { r1 = p1; r0 = a; r3 = x }))
      (record m { r3 = c; r2 = p2 })
