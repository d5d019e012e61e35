-- ===== src/Gc/Grow.antt =====
-- The growth of the arena in `gc_` of src/gc.c.
use mes.Base.{ℕ, ◌+◌, ◌*◌, ◌≡◌, ap, fun_ext, false, arith, ◌==◌}
use mes.Gc.Drive.{cell_size, may_grow, grow_arena, gc_with, gc_}
use mes.Heap.{ok}
use mes.Machine.{Machine}

-- The address of a cell is no byte behind that of another.
may_grow-never : (m : Machine) → may_grow m ≡ false
may_grow-never m =
    let e : (m.heap.base * cell_size == m.arena * cell_size + 1) ≡ false = ground arith in
    rw e (ground arith)

pub grow_arena-ok : (realloc : ℕ → ℕ → ℕ) (m : Machine) → grow_arena realloc m ≡ ok tt m
unfolding grow_arena
grow_arena-ok realloc m = rw (may_grow-never m)

-- In a build where a step of a cell pointer is one cell, the arena never grows: from every machine
-- and with every `realloc`, `gc_` does what it does when its step of growth is left out.
pub gc_-without_growth :
    (realloc : ℕ → ℕ → ℕ) (k : ℕ) (m : Machine) → gc_ realloc k m ≡ gc_with (λ m. ok tt m) k m
unfolding gc_
gc_-without_growth realloc k m =
    ap (λ grow. gc_with grow k m) (fun_ext (λ m. grow_arena-ok realloc m))
