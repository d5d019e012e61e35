-- ===== src/Gc/Drive.antt =====
-- The driver of the collector in src/gc.c: `gc_init_news`, `gc_up_arena`, `gc_check`, `gc_` and
-- `gc`. The texts that `g_debug` asks for and the clock are left out.
use mes.Base.{
  ℕ, zero, suc, ◌+◌, ◌-◌, ◌*◌, ◌/◌, Bool, ◌&&◌, ltb, leb, ◌==◌, if◌then◌else◌, sub_word, mul_word,
}
use mes.Gc.{gc_copy, scan_loop, gc_flip}
use mes.Heap.{Heap, Run, ok, abort, ◌>>=◌, ◌>>◌, pure, car_at, cell, update, write}
use mes.Heap.Agree.{grow}
use mes.Heap.Const.{t_char, t_vector, cell_nil, cell_unspecified}
use mes.Machine.{Machine, on_heap, gc_push_frame, gc_pop_frame}

-- `cell_arena`, the cell before `g_cells`.
abbrev pub cell_arena : Machine → ℕ
cell_arena m = m.heap.base - 1

-- `g_news`.
abbrev pub first_news : Machine → ℕ
first_news m = m.heap.free + 1

-- The vector of the new arena and its cell zero. The first word of the latter is left as it is.
unfoldable pub gc_init_news : Machine → Machine
gc_init_news m =
    let h = m.heap in
    let news = first_news m in
    let h = write h h.free (cell t_vector (car_at h (cell_arena m)) news) in
    let h = write h news (cell t_char (car_at h news) b'n') in record m { heap = h }

-- The sizes of a larger arena.
unfoldable pub arena_sizes : Machine → Machine
arena_sizes m =
    if ltb (m.heap.arena_size / 2) (m.max_arena_size / 4)
    then record m {
      heap = record (m.heap) { arena_size = mul_word (m.heap.arena_size) 2 };
      jam_size = mul_word m.jam_size 2;
      gc_safety = mul_word m.gc_safety 2;
    }
    else record m { heap = record (m.heap) { arena_size = sub_word m.max_arena_size m.jam_size } }

-- The bytes of a cell.
abbrev pub cell_size : ℕ
cell_size = 24

-- `realloc` gives the cell at which the memory of so many bytes starts now, or 0. The arena moves
-- there; the pointers into it, the stack's among them, stay what they were. The image of the stack
-- that is moved behind the arena is left out: `g_stack_array` does not follow it.
unfoldable pub gc_up_arena : (ℕ → ℕ → ℕ) → Machine → Run Machine (Unit {0})
gc_up_arena realloc m =
    let m = arena_sizes m in
    let from = cell_arena m in
    let arena_bytes = (m.heap.arena_size + m.jam_size) * cell_size in
    let p = realloc from (arena_bytes * 2 + m.stack_size * cell_size) in
    if p == 0
    then abort
    else ok tt (record m {
      heap = record (m.heap) {
        cells = λ q. m.heap.cells (from + q - p);
        bytes = λ q. m.heap.bytes (from + q - p);
        base = p + 1;
      };
    })

-- In a build where a step of a cell pointer is one cell, `M2_CELL_SIZE` is 1, and the second test
-- compares the address of `g_cells` with one byte behind `g_arena`. `m.arena` is the cell at which
-- `g_arena` points.
abbrev pub may_grow : Machine → Bool
may_grow m =
    ltb (m.heap.arena_size) m.max_arena_size && (m.heap.base * cell_size == m.arena * cell_size + 1)

-- `gc_copy` of the `n` cells from `s` on.
unfoldable pub copy_symbols : ℕ → ℕ → Heap → Run Heap (Unit {0})
copy_symbols zero s = pure tt
copy_symbols (suc n) s = do _ ← gc_copy s; copy_symbols n (s + 1)

-- The slots of the stack from `i` on, `n` of them.
unfoldable pub copy_stack : ℕ → ℕ → Machine → Run Machine (Unit {0})
copy_stack zero i m = ok tt m
copy_stack (suc n) i m =
    (do
      a ← on_heap (gc_copy (m.stack_array i))
      λ m. copy_stack n (i + 1) (record m { stack_array = update m.stack_array i a }))
      m

unfoldable pub copy_roots : Machine → Run Machine (Unit {0})
copy_roots m =
    (do
      symbols ← on_heap (gc_copy m.symbols)
      macros ← on_heap (gc_copy m.macros)
      ports ← on_heap (gc_copy m.ports)
      hash_table_type ← on_heap (gc_copy m.hash_table_type)
      variable_type ← on_heap (gc_copy m.variable_type)
      m0 ← on_heap (gc_copy m.m0)
      m1 ← on_heap (gc_copy m.m1)
      λ m. ok tt (record m {
        symbols = symbols;
        macros = macros;
        ports = ports;
        hash_table_type = hash_table_type;
        variable_type = variable_type;
        m0 = m0;
        m1 = m1;
      }))
      m

unfoldable pub grow_arena : (ℕ → ℕ → ℕ) → Machine → Run Machine (Unit {0})
grow_arena realloc m = if may_grow m then gc_up_arena realloc m else ok tt m

-- `k` bounds the rounds of the scan and of the flip.
unfoldable pub gc_with : (Machine → Run Machine (Unit {0})) → ℕ → Machine → Run Machine (Unit {0})
gc_with grow k m =
    let news = first_news m in
    let m = gc_init_news m in
    let m = record m { heap = record (m.heap) { free = news + 1 } } in
    (do
      grow
      on_heap (copy_symbols (m.symbol_max - cell_nil) cell_nil)
      copy_roots
      λ m. copy_stack (m.stack_size - m.stack) m.stack m
      on_heap (scan_loop k (news + 1))
      gc_flip k news)
      m

unfoldable pub gc_ : (ℕ → ℕ → ℕ) → ℕ → Machine → Run Machine (Unit {0})
gc_ realloc = gc_with (grow_arena realloc)

unfoldable pub gc : (ℕ → ℕ → ℕ) → ℕ → Machine → Run Machine ℕ
gc realloc k = do
  gc_push_frame
  gc_ realloc k
  gc_pop_frame
  λ m. ok cell_unspecified (record m { gc_count = m.gc_count + 1 })

unfoldable pub gc_check : (ℕ → ℕ → ℕ) → ℕ → Machine → Run Machine ℕ
gc_check realloc k m =
    let used = m.heap.free - m.heap.base + m.gc_safety in
    if leb (m.heap.arena_size) used then gc realloc k m else ok cell_unspecified m
