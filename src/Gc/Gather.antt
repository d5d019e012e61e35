-- ===== src/Gc/Gather.antt =====
-- `gc_` of src/gc.c up to `gc_flip`: from a machine to a copy of all that its roots reach.
use mes.Base.{
  ℕ, ◌+◌, ◌-◌, ◌≤◌, ◌<◌, ◌≡◌, refl, sym, ap, ◌∙◌, subst, inl, Bool, List, [], arith, length,
}
use mes.Gc.{scan_loop, gc_flip}
use mes.Gc.Collect.{scan_loop-Scans}
use mes.Gc.Copy.{copied_cells}
use mes.Gc.Drive.{
  first_news, gc_init_news, copy_symbols, copy_stack, copy_roots, grow_arena, gc_with, gc_,
}
use mes.Gc.Grow.{grow_arena-ok}
use mes.Gc.Loop.{Collecting}
use mes.Gc.Registers.{copy_stack-Slots, RootRegisters, copy_roots-Registers}
use mes.Gc.Roots.{Filled, IsRoot, Hearts, Hearts-trans, IsCopy, IsCopy-Hearts, copy_symbols-Symbols}
use mes.Gc.Snapshot.{Snapshot, IsWellFormed}
use mes.Gc.Space.{weight, weight-same}
use mes.Heap.{Cell, Heap, Run, and_then-ok, car_at}
use mes.Heap.Const.{cell_nil}
use mes.Machine.{Machine, on_heap, on_heap-ok}

-- The old space of a machine, of whose cells `head` tells which begin an object.
abbrev pub old_space : (ℕ → Bool) → Machine → Snapshot
old_space head m = record {
  heap = m.heap;
  head = head;
  news = m.heap.free;
  start = first_news m + 1;
}

-- The machine after `gc_init_news`, with `g_free` behind cell zero of the new arena.
unfoldable pub started : Machine → Machine
started m = record (gc_init_news m) {
  heap = record ((gc_init_news m).heap) { free = first_news m + 1 };
}

started_same : (m : Machine) (p : ℕ) → p < m.heap.free → (started m).heap.cells p ≡ m.heap.cells p
unfolding started gc_init_news
started_same m p lt = ground arith

started-Filled :
    (head : ℕ → Bool) (m : Machine)
    → Filled (old_space head m) (weight (old_space head m) m.heap m.heap.free) (started m).heap
unfolding started gc_init_news
started-Filled head m =
    let g = old_space head m in
    record {
      os = [];
      space = record {
        free_at = refl;
        old = λ p lt. inl (started_same m p lt);
        old_bytes = λ p lt. refl;
        front = λ q l l'. ground arith;
        base_at = refl;
      };
      raw = tt;
      work = omega (arith, weight-same g m.heap (started m).heap m.heap.free (started_same m));
    }

-- What a collection of the machine relies on: objects of the old space that only lead to such
-- objects, of which none is a broken heart, and roots among them, of which each symbol takes one
-- cell.
pub record IsCollectable (head : ℕ → Bool) (m : Machine) : Type 0 where
  pub well_formed : IsWellFormed (old_space head m)
  pub registers : RootRegisters (old_space head m) m
  pub slots : (j : ℕ) → m.stack ≤ j → j < m.stack_size → IsRoot (old_space head m) (m.stack_array j)
  pub symbols : (i : ℕ) → i < m.symbol_max - cell_nil → IsRoot (old_space head m) (cell_nil + i)
  pub single : (i : ℕ) → i < m.symbol_max - cell_nil → copied_cells m.heap (cell_nil + i) ≡ 1

-- The roots of `m'` are the addresses of the copies of those of `m`.
pub record RootsCopied (h : Heap) (m m' : Machine) : Type 0 where
  pub symbols : IsCopy h m.symbols m'.symbols
  pub macros : IsCopy h m.macros m'.macros
  pub ports : IsCopy h m.ports m'.ports
  pub hash_table_type : IsCopy h m.hash_table_type m'.hash_table_type
  pub variable_type : IsCopy h m.variable_type m'.variable_type
  pub m0 : IsCopy h m.m0 m'.m0
  pub m1 : IsCopy h m.m1 m'.m1
  pub slots :
      (j : ℕ) → m.stack ≤ j → j < m.stack_size → IsCopy h (m.stack_array j) (m'.stack_array j)

-- A run that goes on with `rest` when everything that the roots reach has been copied.
pub record Gathers (head : ℕ → Bool) (m : Machine) (rest : Machine → Run Machine (Unit {0}))
    (run : Run Machine (Unit {0})) : Type 0 where
  pub machine : Machine
  pub os : List ℕ
  pub count : length os ≤ weight (old_space head m) m.heap m.heap.free
  pub returns : run ≡ rest machine
  pub collecting : Collecting (old_space head m) os [] machine.heap
  pub roots : RootsCopied machine.heap m machine
  pub symbol_cells :
      (i : ℕ)
      → i < m.symbol_max - cell_nil
      → IsCopy machine.heap (cell_nil + i) (car_at machine.heap (cell_nil + i))
  pub in_place :
      (i : ℕ)
      → i < m.symbol_max - cell_nil
      → car_at machine.heap (cell_nil + i) ≡ first_news m + 1 + i
  pub stack_at : machine.stack ≡ m.stack
  pub stack_size_at : machine.stack_size ≡ m.stack_size

started_roots :
    (g : Snapshot) (m : Machine)
    → RootRegisters g m
    → {h : Heap} → RootRegisters g (record (started m) { heap = h })
unfolding started gc_init_news
started_roots g m r {h} = record {
  symbols = r.symbols;
  macros = r.macros;
  ports = r.ports;
  hash_table_type = r.hash_table_type;
  variable_type = r.variable_type;
  m0 = r.m0;
  m1 = r.m1;
}

-- With more rounds than the old space holds objects, `gc_` gets to `gc_flip`; by then the new space
-- is a copy of what the roots reach, and the roots hold the addresses of their copies.
pub gc_-Gathers :
    (realloc : ℕ → ℕ → ℕ) (k : ℕ) (head : ℕ → Bool) (m : Machine)
    → IsCollectable head m
    → weight (old_space head m) m.heap m.heap.free < k
    → Gathers head m (gc_flip k (first_news m)) (gc_ realloc k m)
unfolding gc_ gc_with started gc_init_news
gc_-Gathers realloc k head m c lt =
    let g = old_space head m in
    let wf = c.well_formed in
    let n = weight g m.heap m.heap.free in
    let m0 = started m in
    let y =
      copy_symbols-Symbols (m.symbol_max - cell_nil) g n cell_nil m0.heap wf (started-Filled head m)
        c.symbols in
    let m1 = record m0 { heap = y.heap } in
    let r = copy_roots-Registers g n m1 wf y.filled (started_roots g m c.registers) in
    let s =
      copy_stack-Slots (r.machine.stack_size - r.machine.stack) g n r.machine.stack r.machine wf
        r.filled
        (λ j le lt.
          subst (λ f. IsRoot g (f j)) (sym r.stack_array_at)
            (c.slots j (omega (arith, r.stack_at)) (omega (arith, r.stack_at, r.stack_size_at)))) in
    let m2 = record (r.machine) { heap = s.heap; stack_array = s.slots } in
    let t =
      scan_loop-Scans k g [] s.filled.os s.heap wf
        (record { space = s.filled.space; done = tt; pending = s.filled.raw })
        (omega (arith, s.filled.work)) in
    let later : Hearts g r.machine.heap t.heap =
      Hearts-trans g r.machine.heap s.heap t.heap s.hearts t.hearts in
    let all : Hearts g y.heap t.heap = Hearts-trans g y.heap r.machine.heap t.heap r.hearts later in
    let copy : (old new : ℕ)
        → IsRoot g old
        → IsCopy r.machine.heap old new
        → IsCopy t.heap old new =
      λ old new i. IsCopy-Hearts g r.machine.heap t.heap i later in
    record {
      machine = record m2 { heap = t.heap };
      os = t.os;
      count = omega (arith, t.count, s.filled.work);
      returns =
          and_then-ok (grow_arena realloc) _ (grow_arena-ok realloc m0)
          ∙ and_then-ok (on_heap (copy_symbols (m.symbol_max - cell_nil) cell_nil)) _
              (on_heap-ok (copy_symbols (m.symbol_max - cell_nil) cell_nil) m0 y.returns)
          ∙ and_then-ok copy_roots _ r.returns
          ∙ and_then-ok (λ m. copy_stack (m.stack_size - m.stack) m.stack m) _ s.returns
          ∙ and_then-ok (on_heap (scan_loop k (first_news m + 1))) _
              (on_heap-ok (scan_loop k (first_news m + 1)) m2 t.returns);
      collecting = t.collecting;
      roots = record {
        symbols = copy m.symbols r.machine.symbols c.registers.symbols r.symbols;
        macros = copy m.macros r.machine.macros c.registers.macros r.macros;
        ports = copy m.ports r.machine.ports c.registers.ports r.ports;
        hash_table_type =
            copy m.hash_table_type r.machine.hash_table_type c.registers.hash_table_type
              r.hash_table_type;
        variable_type =
            copy m.variable_type r.machine.variable_type c.registers.variable_type r.variable_type;
        m0 = copy m.m0 r.machine.m0 c.registers.m0 r.m0;
        m1 = copy m.m1 r.machine.m1 c.registers.m1 r.m1;
        slots = λ j le lt. IsCopy-Hearts g s.heap t.heap (c.slots j le lt) t.hearts (
            subst (λ f. IsCopy s.heap (f j) (s.slots j)) r.stack_array_at
              (s.copies j (omega (arith, r.stack_at))
                (omega (arith, r.stack_at, r.stack_size_at))));
      };
      symbol_cells = λ i below.
          let e = y.copies i below in
          ((IsCopy-Hearts g y.heap t.heap (c.symbols i below) all e).0, refl);
      in_place = λ i below.
          let (e, _) = c.symbols i below in
          ap (λ (k : Cell). k.car) (all (cell_nil + i) e (y.copies i below).0)
          ∙ y.in_place (λ j l. (started_same m (cell_nil + j) (c.symbols j l).0, c.single j l)) i
              below;
      stack_at = r.stack_at;
      stack_size_at = r.stack_size_at;
    }
