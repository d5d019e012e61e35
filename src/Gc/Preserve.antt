-- ===== src/Gc/Preserve.antt =====
-- `gc_` of src/gc.c as a whole.
use mathlib.Core.List.{append-nil}
use native.Mathlib.Nat.{mul-le-mul_right}
use mes.Base.{
  ℕ, zero, suc, ◌+◌, ◌-◌, ◌*◌, ◌/◌, ◌^◌, ◌≤◌, ◌<◌, ◌≡◌, refl, sym, ap, ◌∙◌, subst, inl, inr, Bool,
  true, ◌&&◌, List, [], ◌∷◌, arith, ltb, leb, if◌then◌else◌, ==_iff, length, sub_word,
}
use mes.Gc.{object_cells, gc_cellcpy_loop, gc_cellcpy, gc_flip}
use mes.Gc.Carry.{Carried, CarriedCell, is_reached, new_address, Image-CarriedCell}
use mes.Gc.Collect.{Placed-below, Collecting-Home, Collecting-Collected}
use mes.Gc.Copy.{element_count}
use mes.Gc.Drive.{first_news, gc_}
use mes.Gc.Flip.{sub_word_lem, gc_cellcpy-Flips}
use mes.Gc.Gather.{old_space, IsCollectable, gc_-Gathers}
use mes.Gc.Loop.{Collecting}
use mes.Gc.Roots.{IsCopy}
use mes.Gc.Shift.{shift, Shifted, shift-Places, gc_cellcpy_step}
use mes.Gc.Snapshot.{
  Snapshot, IsWellFormed, size, Image, total, Laid, Placed, total-le, Placed-Laid,
}
use mes.Gc.Space.{weight}
use mes.Heap.{Heap, Run, ok, and_then-ok, type_at, car_at, cdr_at}
use mes.Heap.Const.{t_char, t_broken_heart, cell_nil}
use mes.Machine.{Machine, on_heap, on_heap-ok}

-- No layout is longer than its objects allow.
total_bound :
    (g : Snapshot) (h : Heap) (b s : ℕ) (os : List ℕ)
    → 0 < b
    → ((p : ℕ) → p < g.news → g.head p ≡ true → size g p ≤ b)
    → Laid g (Image g h) s os
    → total g s os ≤ s + length os * b
total_bound g h b s [] pos small l = omega arith
total_bound g h b s (o ∷ os) pos small (i, l) =
    let fits : size g o ≤ b = elim i.kind [
      | inl hd ↦ small o i.old hd
      | inr e ↦ omega (arith, e)
    ] in
    omega (arith, total_bound g h b (s + size g o) os pos small l, fits)

-- `gc_cellcpy` in `gc_flip`: cell zero, and the objects behind it.
record Lowers (g : Snapshot) (os : List ℕ) (dist : ℕ) (h : Heap) (run : Run Heap (Unit {0}))
    : Type 0 where
  heap : Heap
  returns : run ≡ ok tt heap
  moved : Laid g (λ o a. Shifted dist h heap a) g.start os
  same_free : heap.free ≡ h.free

gc_cellcpy-Lowers :
    (k : ℕ) (head : ℕ → Bool) (m : Machine) (os : List ℕ) (h : Heap)
    → IsWellFormed (old_space head m)
    → Collecting (old_space head m) os [] h
    → length os + 1 < k
    → m.heap.base ≤ m.heap.free
    → h.free < 2 ^ 64
    → Lowers
        (old_space head m)
        os
        (first_news m - m.heap.base)
        h
        (gc_cellcpy k (m.heap.base) (first_news m) (h.free - first_news m) h)
unfolding gc_cellcpy
gc_cellcpy-Lowers zero head m os h wf c fuel le lt = absurd (omega arith)
gc_cellcpy-Lowers (suc k) head m os h wf c fuel le lt =
    let g = old_space head m in
    let base = m.heap.base in
    let news = first_news m in
    let dist = news - base in
    let zero_cell : type_at h news ≡ t_char = c.space.front news (omega arith) (omega arith) in
    let end : h.free ≡ total g g.start os =
      c.space.free_at ∙ ap (total g g.start) (append-nil os) in
    let bound = total-le g g.start os in
    let one : object_cells h (type_at h news) news ≡ 1 = rw zero_cell refl in
    let p = shift-Places dist base news h in
    let r =
      gc_cellcpy-Flips os g k dist (base + 1) (news + 1) (h.free - news - 1) h
        (shift dist base news h) wf c.done (omega arith) (omega arith) (omega arith)
        (omega (arith, end, bound)) (omega (arith, end)) (λ q b. p.same q (omega arith))
        (λ q b. p.same_bytes q (omega arith)) in
    record {
      heap = r.heap;
      returns =
          gc_cellcpy_step k dist base news (h.free - news) h (omega (arith, end, bound))
            (λ e. omega (arith, e, zero_cell))
          ∙ ap
              (λ (n : ℕ).
                gc_cellcpy_loop k dist (base + n) (news + n) (sub_word (h.free - news) n)
                  (shift dist base news h))
              one
          ∙ ap (λ (n : ℕ). gc_cellcpy_loop k dist (base + 1) (news + 1) n (shift dist base news h))
              (sub_word_lem (h.free - news) 1 (omega (arith, end, bound)) (omega arith))
          ∙ r.returns;
      moved = r.moved;
      same_free = r.same_free ∙ p.same_free;
    }

-- `m'` holds a copy of what the roots of `m` reach: each object that was reached has an address of
-- its own in the arena of `m'`, where its cell and its elements stand with their pointers carried
-- over; the roots are carried over, the symbols stand side by side behind cell zero, and the
-- stack is as deep as before.
pub record Preserves (m m' : Machine) : Type 0 where
  pub reached : ℕ → Bool
  pub address : ℕ → ℕ
  pub objects :
      (q : ℕ)
      → q < m.heap.free
      → reached q ≡ true
      → CarriedCell reached address m.heap m'.heap q (address q)
  pub elements :
      (q i : ℕ)
      → q < m.heap.free
      → reached q ≡ true
      → i < element_count m.heap q
      → CarriedCell reached address m.heap m'.heap (cdr_at m.heap q + i) (address q + 1 + i)
  pub distinct :
      (q r : ℕ)
      → q < m.heap.free
      → r < m.heap.free
      → reached q ≡ true
      → reached r ≡ true
      → address q ≡ address r
      → q ≡ r
  pub inside :
      (q : ℕ)
      → q < m.heap.free
      → reached q ≡ true
      → (m.heap.base < address q) × (address q < m'.heap.free)
  pub symbols : Carried reached address true m.symbols m'.symbols
  pub macros : Carried reached address true m.macros m'.macros
  pub ports : Carried reached address true m.ports m'.ports
  pub hash_table_type : Carried reached address true m.hash_table_type m'.hash_table_type
  pub variable_type : Carried reached address true m.variable_type m'.variable_type
  pub m0 : Carried reached address true m.m0 m'.m0
  pub m1 : Carried reached address true m.m1 m'.m1
  pub slots :
      (j : ℕ)
      → m.stack ≤ j
      → j < m.stack_size
      → Carried reached address true (m.stack_array j) (m'.stack_array j)
  pub symbol_cells : (i : ℕ) → i < m.symbol_max - cell_nil → reached (cell_nil + i) ≡ true
  pub in_place :
      (i : ℕ) → i < m.symbol_max - cell_nil → address (cell_nil + i) ≡ m.heap.base + 1 + i
  pub stack_at : m'.stack ≡ m.stack
  pub stack_size_at : m'.stack_size ≡ m.stack_size

IsCopy-Carried :
    (dist : ℕ) (g : Snapshot) (h : Heap) (old new : ℕ)
    → g.head old ≡ true
    → IsCopy h old new
    → Carried (is_reached g h) (new_address dist h) true old (new - dist)
IsCopy-Carried dist g h old new hd (e, f) = (ground arith, ap (λ (k : ℕ). k - dist) (sym f))

-- What `gc_flip` makes of a machine when `gc_cellcpy` has moved the new space by `dist`.
lowered : ℕ → ℕ → Heap → Machine → Machine
lowered news dist h m =
    let used = m.heap.free - news in
    record m {
      jam_size = if ltb m.jam_size used then used * 3 / 2 else m.jam_size;
      heap = record h { free = h.free - dist };
      symbols = m.symbols - dist;
      macros = m.macros - dist;
      ports = m.ports - dist;
      hash_table_type = m.hash_table_type - dist;
      variable_type = m.variable_type - dist;
      m0 = m.m0 - dist;
      m1 = m.m1 - dist;
      stack_array = λ i.
          if leb m.stack i && ltb i m.stack_size then m.stack_array i - dist else m.stack_array i;
    }

gc_flip-lowered :
    (k news base : ℕ) (m : Machine) (h : Heap)
    → m.heap.base ≡ base
    → gc_cellcpy k base news (m.heap.free - news) (m.heap) ≡ ok tt h
    → gc_flip k news m ≡ ok tt (lowered news (news - base) h m)
unfolding gc_flip lowered
gc_flip-lowered k news base m h e =
    let used = m.heap.free - news in
    let m1 = record m { jam_size = if ltb m.jam_size used then used * 3 / 2 else m.jam_size } in
    subst
      (λ base.
        gc_cellcpy k base news used (m.heap) ≡ ok tt h
        → gc_flip k news m ≡ ok tt (lowered news (news - base) h m))
      e
      (λ y.
        and_then-ok (on_heap (gc_cellcpy k (m.heap.base) news used)) _
          (on_heap-ok (gc_cellcpy k (m.heap.base) news used) m1 y))

Shifted-free :
    (dist n : ℕ) (h h' : Heap) (s : ℕ)
    → Shifted dist h h' s
    → Shifted dist h (record h' { free = n }) s
Shifted-free dist n h h' s f = record { cells = f.cells; bytes = f.bytes }

-- `gc_` on a machine that it can collect returns, and the machine that it leaves holds a copy of what
-- the roots of the first one reach. It can collect when
-- (1) the roots, which are the registers but `R0` to `R3`, the slots of the stack and the symbols,
-- and the pointers of objects and of elements lead to objects below `g_free`;
-- (2) no object and no element is a broken heart; cells that are neither may be, such as those
-- that an earlier collection has left among the bytes of a string;
-- (3) the elements of a struct or a vector are below `g_free`, are no objects, and are neither bytes
-- nor structs nor vectors, and there are less than 2 ^ 63 of them;
-- (4) each symbol takes one cell, and the arena begins at or below `g_free`;
-- (5) no object takes more than `b` cells, which is one or more, and a new space with `b` cells for
-- each object and element ends below 2 ^ 64;
-- (6) there are at least two rounds more than the old space holds objects and elements.
pub gc_-Preserves :
    (realloc : ℕ → ℕ → ℕ) (k b : ℕ) (head : ℕ → Bool) (m : Machine)
    → IsCollectable head m
    → m.heap.base ≤ m.heap.free
    → 0 < b
    → ((p : ℕ) → p < m.heap.free → head p ≡ true → size (old_space head m) p ≤ b)
    → first_news m + 1 + weight (old_space head m) m.heap m.heap.free * b < 2 ^ 64
    → weight (old_space head m) m.heap m.heap.free + 1 < k
    → (m' : Machine) × (gc_ realloc k m ≡ ok tt m') × Preserves m m'
unfolding lowered
gc_-Preserves realloc k b head m c le pos small room fuel =
    let g = old_space head m in
    let wf = c.well_formed in
    let r = gc_-Gathers realloc k head m c (omega arith) in
    let h = r.machine.heap in
    let dist = first_news m - m.heap.base in
    let all = Collecting-Collected g r.os h h wf r.collecting (λ q l e. refl) in
    let end : h.free ≡ total g g.start r.os =
      r.collecting.space.free_at ∙ ap (total g g.start) (append-nil r.os) in
    let bound = total_bound g h b g.start r.os pos small r.collecting.done in
    let most = mul-le-mul_right b r.count in
    let lt : h.free < 2 ^ 64 = omega (arith, end, bound, most) in
    let f = gc_cellcpy-Lowers k head m r.os h wf r.collecting (omega (arith, r.count)) le lt in
    let moved = record (f.heap) { free = f.heap.free - dist } in
    let range : (q : ℕ)
        → q < g.news
        → g.head q ≡ true
        → type_at h q ≡ t_broken_heart
        → (dist ≤ car_at h q) × (car_at h q < 2 ^ 64) =
      λ q l hd e. let i = all.inside q l hd e in (omega (arith, i), omega (arith, i, lt)) in
    let heart : (q : ℕ) → is_reached g h q ≡ true → type_at h q ≡ t_broken_heart =
      λ q y. (==_iff _ _).0 (ground (arith, y)) in
    let object : (q : ℕ) → is_reached g h q ≡ true → g.head q ≡ true = λ q y. ground (arith, y) in
    let carried : (q s : ℕ)
        → Placed g g.start r.os q s
        → CarriedCell (is_reached g h) (new_address dist h) m.heap moved q (s - dist) =
      λ q s p.
        let at = Placed-below g g.start r.os q s p in
        Image-CarriedCell g dist h moved q s range (omega (arith, at)) (omega (arith, at, end, lt))
          (Placed-Laid g (Image g h) g.start r.os q s r.collecting.done p)
          (Shifted-free dist (f.heap.free - dist) h f.heap s
            (Placed-Laid g (λ o a. Shifted dist h f.heap a) g.start r.os q s f.moved p)) in
    let home = λ (q : ℕ) (l : q < g.news) (y : is_reached g h q ≡ true).
      Collecting-Home g r.os h wf r.collecting q l (object q y) (heart q y) in
    let root = IsCopy-Carried dist g h in
    (
      lowered (first_news m) dist f.heap r.machine,
      r.returns
          ∙ gc_flip-lowered k (first_news m) m.heap.base r.machine f.heap r.collecting.space.base_at
              f.returns,
      record {
        reached = is_reached g h;
        address = new_address dist h;
        objects = λ q l y. carried q (car_at h q) (home q l y).0;
        elements = λ q i l y below.
            let within = all.inside q l (object q y) (heart q y) in
            let e : car_at h q + 1 + i - dist ≡ car_at h q - dist + 1 + i = omega (arith, within) in
            subst
              (CarriedCell (is_reached g h) (new_address dist h) m.heap moved (cdr_at m.heap q + i))
              e (carried (cdr_at m.heap q + i) (car_at h q + 1 + i) ((home q l y).1 i below));
        distinct = λ q q' l l' y y' e.
            all.distinct q q' l l' (object q y) (object q' y') (heart q y) (heart q' y') (
              omega (
                arith,
                e,
                all.inside q l (object q y) (heart q y),
                all.inside q' l' (object q' y') (heart q' y'),
              ));
        inside = λ q l y. omega (arith, all.inside q l (object q y) (heart q y), f.same_free);
        symbols = root m.symbols r.machine.symbols c.registers.symbols.1 r.roots.symbols;
        macros = root m.macros r.machine.macros c.registers.macros.1 r.roots.macros;
        ports = root m.ports r.machine.ports c.registers.ports.1 r.roots.ports;
        hash_table_type =
            root m.hash_table_type r.machine.hash_table_type c.registers.hash_table_type.1
              r.roots.hash_table_type;
        variable_type =
            root m.variable_type r.machine.variable_type c.registers.variable_type.1
              r.roots.variable_type;
        m0 = root m.m0 r.machine.m0 c.registers.m0.1 r.roots.m0;
        m1 = root m.m1 r.machine.m1 c.registers.m1.1 r.roots.m1;
        slots = λ j le' lt'.
            let low : leb r.machine.stack j ≡ true = ground (arith, r.stack_at) in
            let high : ltb j r.machine.stack_size ≡ true = ground (arith, r.stack_size_at) in
            let slot : (lowered (first_news m) dist f.heap r.machine).stack_array j
                ≡ r.machine.stack_array j - dist =
              rw (low, high) refl in
            subst (Carried (is_reached g h) (new_address dist h) true (m.stack_array j)) (sym slot)
              (root (m.stack_array j) (r.machine.stack_array j) (c.slots j le' lt').1
                (r.roots.slots j le' lt'));
        symbol_cells = λ i below. ground (arith, (r.symbol_cells i below).0, (c.symbols i below).1);
        in_place = λ i below. omega (arith, r.in_place i below);
        stack_at = r.stack_at;
        stack_size_at = r.stack_size_at;
      },
    )
