-- ===== src/Tests/Collection.antt =====
-- A collection of a machine with a number, a pair of it and of itself, two symbols, and a cell of
-- no object, in which an earlier collection has left a broken heart.
use mes.Base.{ℕ, zero, suc, ◌+◌, ◌≤◌, ◌<◌, ◌≡◌, refl, ◌≢◌, Bool, true, arith, ltb}
use mes.Gc.{points_car, points_cdr}
use mes.Gc.Copy.{element_count, copied_cells}
use mes.Gc.Drive.{gc_, gc}
use mes.Gc.Gather.{old_space, IsCollectable}
use mes.Gc.Preserve.{Preserves, gc_-Preserves}
use mes.Gc.Registers.{RootRegisters}
use mes.Gc.Snapshot.{Snapshot, PointsOld, IsWellFormed, size}
use mes.Gc.Whole.{framed, Collects, gc-Collects}
use mes.Heap.{Cell, ok, type_at, cell}
use mes.Heap.Const.{t_char, t_number, t_pair, t_broken_heart, cell_unspecified}
use mes.Machine.{Machine}

abbrev full_cells : ℕ → Cell
full_cells zero = cell t_number 0 5
full_cells (suc zero) = cell t_pair 0 1
full_cells (suc (suc zero)) = cell t_char 0 0
full_cells (suc (suc (suc zero))) = cell t_char 0 0
full_cells (suc (suc (suc (suc zero)))) = cell t_char 0 0
full_cells (suc (suc (suc (suc (suc p))))) = cell t_broken_heart 9 0

-- The registers and the slots of the stack are the pair.
abbrev full_machine : Machine
full_machine = record {
  heap = record {
    cells = full_cells;
    bytes = λ p i. 0;
    free = 6;
    base = 2;
    arena_size = 100;
    max_string = 100;
  };
  stack = 6;
  stack_size = 8;
  stack_array = λ i. 1;
  r0 = 1;
  r1 = 1;
  r2 = 1;
  r3 = 1;
  m0 = 1;
  m1 = 1;
  symbols = 1;
  macros = 1;
  ports = 1;
  hash_table_type = 1;
  variable_type = 1;
  symbol_max = 5;
  arena = 0;
  max_arena_size = 100;
  jam_size = 10;
  gc_safety = 10;
  gc_count = 0;
  continuations = 0;
}

abbrev is_object : ℕ → Bool
is_object p = ltb p 5

abbrev full_space : Snapshot
full_space = old_space is_object full_machine

full_space-PointsOld : (p : ℕ) → p < 6 → PointsOld full_space p
unfolding points_car points_cdr
full_space-PointsOld zero lt = (λ e. ground (arith, e), λ e. ground (arith, e))
full_space-PointsOld (suc zero) lt = (λ e. (omega arith, refl), λ e. (omega arith, refl))
full_space-PointsOld (suc (suc zero)) lt = (λ e. ground (arith, e), λ e. ground (arith, e))
full_space-PointsOld (suc (suc (suc zero))) lt = (λ e. ground (arith, e), λ e. ground (arith, e))
full_space-PointsOld (suc (suc (suc (suc zero)))) lt =
    (λ e. ground (arith, e), λ e. ground (arith, e))
full_space-PointsOld (suc (suc (suc (suc (suc p))))) lt =
    (λ e. ground (arith, e), λ e. ground (arith, e))

no_heart_lem : (p : ℕ) → p < 6 → is_object p ≡ true → type_at full_machine.heap p ≢ t_broken_heart
no_heart_lem zero lt hd e = omega arith
no_heart_lem (suc zero) lt hd e = omega arith
no_heart_lem (suc (suc zero)) lt hd e = omega arith
no_heart_lem (suc (suc (suc zero))) lt hd e = omega arith
no_heart_lem (suc (suc (suc (suc zero)))) lt hd e = omega arith
no_heart_lem (suc (suc (suc (suc (suc p))))) lt hd e = ground (arith, hd)

no_elements : (p : ℕ) → p < 6 → element_count full_machine.heap p ≡ 0
no_elements zero lt = refl
no_elements (suc zero) lt = refl
no_elements (suc (suc zero)) lt = refl
no_elements (suc (suc (suc zero))) lt = refl
no_elements (suc (suc (suc (suc zero)))) lt = refl
no_elements (suc (suc (suc (suc (suc p))))) lt = refl

full_space-IsWellFormed : IsWellFormed full_space
full_space-IsWellFormed = record {
  news_start = omega arith;
  no_heart = no_heart_lem;
  small = λ p lt hd. omega (arith, no_elements p lt);
  pointers = λ p lt hd. full_space-PointsOld p lt;
  elements = λ p i lt hd below. absurd (omega (arith, no_elements p lt));
}

full_space-RootRegisters : RootRegisters full_space full_machine
full_space-RootRegisters = record {
  symbols = (omega arith, refl);
  macros = (omega arith, refl);
  ports = (omega arith, refl);
  hash_table_type = (omega arith, refl);
  variable_type = (omega arith, refl);
  m0 = (omega arith, refl);
  m1 = (omega arith, refl);
}

one_symbol : (i : ℕ) → i < 2 → copied_cells full_machine.heap (3 + i) ≡ 1
one_symbol zero lt = refl
one_symbol (suc zero) lt = refl
one_symbol (suc (suc i)) lt = absurd (omega arith)

one_cell : (p : ℕ) → p < 6 → is_object p ≡ true → size full_space p ≤ 1
one_cell zero lt hd = omega arith
one_cell (suc zero) lt hd = omega arith
one_cell (suc (suc zero)) lt hd = omega arith
one_cell (suc (suc (suc zero))) lt hd = omega arith
one_cell (suc (suc (suc (suc zero)))) lt hd = omega arith
one_cell (suc (suc (suc (suc (suc p))))) lt hd = ground (arith, hd)

framed-IsCollectable : IsCollectable is_object (framed full_machine)
framed-IsCollectable = record {
  well_formed = full_space-IsWellFormed;
  registers = record {
    symbols = (omega arith, refl);
    macros = (omega arith, refl);
    ports = (omega arith, refl);
    hash_table_type = (omega arith, refl);
    variable_type = (omega arith, refl);
    m0 = (omega arith, refl);
    m1 = (omega arith, refl);
  };
  slots = λ j le lt. (ground arith, ground arith);
  symbols = λ i lt. (omega arith, ground arith);
  single = λ i lt. one_symbol i (omega arith);
}

full_machine-IsCollectable : IsCollectable is_object full_machine
full_machine-IsCollectable = record {
  well_formed = full_space-IsWellFormed;
  registers = full_space-RootRegisters;
  slots = λ j le lt. (omega arith, refl);
  symbols = λ i lt. (omega arith, ground arith);
  single = λ i lt. one_symbol i (omega arith);
}

gc_-Preserves_example :
    (m : Machine) × (gc_ (λ p n. 0) 10 full_machine ≡ ok tt m) × Preserves full_machine m
gc_-Preserves_example =
    gc_-Preserves (λ p n. 0) 10 1 is_object full_machine full_machine-IsCollectable (omega arith)
      (omega arith) one_cell (omega arith) (omega arith)

gc-Collects_example :
    (m : Machine) × (gc (λ p n. 0) 10 full_machine ≡ ok cell_unspecified m)
    × Collects full_machine m
gc-Collects_example =
    gc-Collects (λ p n. 0) 10 1 is_object full_machine (omega arith) (omega arith)
      framed-IsCollectable (omega arith) (omega arith) one_cell (omega arith) (omega arith)
