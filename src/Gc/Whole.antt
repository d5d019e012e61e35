-- ===== src/Gc/Whole.antt =====
-- `gc` of src/gc.c: the four registers of the evaluator are saved in a frame, which is collected
-- with the stack and read back.
use mes.Base.{
  ℕ, ◌+◌, ◌-◌, ◌*◌, ◌^◌, ◌≤◌, ◌<◌, ◌≡◌, refl, sym, ◌∙◌, subst, Bool, true, false, arith, ltb,
}
use mes.Gc.Carry.{Carried}
use mes.Gc.Drive.{first_news, gc_, gc}
use mes.Gc.Gather.{old_space, IsCollectable}
use mes.Gc.Preserve.{Preserves, gc_-Preserves}
use mes.Gc.Snapshot.{size}
use mes.Gc.Space.{weight}
use mes.Heap.{ok, and_then-ok, update}
use mes.Heap.Const.{gc_frame_size, cell_f, cell_unspecified}
use mes.Machine.{Machine, gc_push_frame, gc_peek_frame, gc_pop_frame}

-- The machine that `gc_push_frame` leaves.
abbrev pub framed : Machine → Machine
framed m =
    let s = m.stack in
    let slots =
      update
        (update (update (update (update m.stack_array (s - 1) cell_f) (s - 2) m.r0) (s - 3) m.r1)
          (s - 4) m.r2)
        (s - 5) m.r3 in
    record m { stack_array = slots; stack = s - 5 }

gc_push_frame-framed : (m : Machine) → 5 ≤ m.stack → gc_push_frame m ≡ ok tt (framed m)
unfolding gc_push_frame
gc_push_frame-framed m room = let e : ltb m.stack gc_frame_size ≡ false = ground arith in rw e refl

-- The machine that `gc` leaves when `gc_` leaves `n`.
unframed : Machine → Machine
unframed n = record n {
  r3 = n.stack_array n.stack;
  r2 = n.stack_array (n.stack + 1);
  r1 = n.stack_array (n.stack + 2);
  r0 = n.stack_array (n.stack + 3);
  stack = n.stack + gc_frame_size;
  gc_count = n.gc_count + 1;
}

-- `m'` holds a copy of what the roots and the registers of `m` reach.
pub record Collects (m m' : Machine) : Type 0 where
  pub preserves : Preserves m m'
  pub r0 : Carried preserves.reached preserves.address true m.r0 m'.r0
  pub r1 : Carried preserves.reached preserves.address true m.r1 m'.r1
  pub r2 : Carried preserves.reached preserves.address true m.r2 m'.r2
  pub r3 : Carried preserves.reached preserves.address true m.r3 m'.r3

-- What is read back from a slot of the frame.
saved :
    (m n : Machine) (i r : ℕ)
    → 5 ≤ m.stack
    → m.stack ≤ m.stack_size
    → (p : Preserves (framed m) n) → i < 5
    → (framed m).stack_array (m.stack - 5 + i) ≡ r
    → Carried p.reached p.address true r (n.stack_array (n.stack + i))
saved m n i r room below p lt e =
    let at : n.stack + i ≡ m.stack - 5 + i = omega (arith, p.stack_at) in
    subst (λ k. Carried p.reached p.address true r (n.stack_array k)) (sym at)
      (subst (λ k. Carried p.reached p.address true k (n.stack_array (m.stack - 5 + i))) e
        (p.slots (m.stack - 5 + i) (omega arith) (omega arith)))

unframed-Collects :
    (m n : Machine)
    → 5 ≤ m.stack
    → m.stack ≤ m.stack_size
    → Preserves (framed m) n
    → Collects m (unframed n)
unfolding unframed
unframed-Collects m n room deep p = record {
  preserves = record {
    reached = p.reached;
    address = p.address;
    objects = p.objects;
    elements = p.elements;
    distinct = p.distinct;
    inside = p.inside;
    symbols = p.symbols;
    macros = p.macros;
    ports = p.ports;
    hash_table_type = p.hash_table_type;
    variable_type = p.variable_type;
    m0 = p.m0;
    m1 = p.m1;
    slots = λ j le lt.
        let above : (framed m).stack_array j ≡ m.stack_array j = ground arith in
        subst (λ k. Carried p.reached p.address true k (n.stack_array j)) above
          (p.slots j (omega arith) lt);
    symbol_cells = p.symbol_cells;
    in_place = p.in_place;
    stack_at = omega (arith, p.stack_at);
    stack_size_at = p.stack_size_at;
  };
  r0 = saved m n 3 m.r0 room deep p (omega arith) (ground arith);
  r1 = saved m n 2 m.r1 room deep p (omega arith) (ground arith);
  r2 = saved m n 1 m.r2 room deep p (omega arith) (ground arith);
  r3 =
      let at : n.stack + 0 ≡ n.stack = omega arith in
      subst (λ k. Carried p.reached p.address true m.r3 (n.stack_array k)) at
        (saved m n 0 m.r3 room deep p (omega arith) (ground arith));
}

-- `gc` returns, what the roots and the registers `R0` to `R3` reach is preserved, and the registers
-- hold the new addresses, under these conditions. The stack index is at most the size of the stack,
-- and there is room for the frame that `gc` pushes. Of the machine with this frame, whose slots are
-- `R0` to `R3`: (1) the roots, and the pointers of objects and of elements, lead to objects below
-- `g_free`; (2) no object and no element is a broken heart, while cells that are neither may be;
-- (3) the elements of a struct or a vector are below `g_free`, are no objects, and are neither bytes
-- nor structs nor vectors, and there are less than 2 ^ 63 of them; (4) each symbol takes one cell,
-- and the arena begins at or below `g_free`; (5) no object takes more than `b` cells, which is one
-- or more, and a new space with `b` cells for each object and element ends below 2 ^ 64; (6) there
-- are at least two rounds more than the old space holds objects and elements.
pub gc-Collects :
    (realloc : ℕ → ℕ → ℕ) (k b : ℕ) (head : ℕ → Bool) (m : Machine)
    → 5 ≤ m.stack
    → m.stack ≤ m.stack_size
    → IsCollectable head (framed m)
    → m.heap.base ≤ m.heap.free
    → 0 < b
    → ((p : ℕ) → p < m.heap.free → head p ≡ true → size (old_space head m) p ≤ b)
    → first_news m + 1 + weight (old_space head m) m.heap m.heap.free * b < 2 ^ 64
    → weight (old_space head m) m.heap m.heap.free + 1 < k
    → (m' : Machine) × (gc realloc k m ≡ ok cell_unspecified m') × Collects m m'
unfolding gc unframed gc_pop_frame gc_peek_frame
gc-Collects realloc k b head m room deep c le pos small space fuel =
    let (n, returns, p) = gc_-Preserves realloc k b head (framed m) c le pos small space fuel in
    (
      unframed n,
      and_then-ok gc_push_frame _ (gc_push_frame-framed m room)
          ∙ and_then-ok (gc_ realloc k) _ returns,
      unframed-Collects m n room deep p,
    )
