-- ===== src/Tests/Eval.antt =====
-- The evaluator on a procedure whose body is `(if #f 7 8)`.
use mes.Base.{ℕ, suc, ◌+◌, ◌≡◌, refl, List, [], ◌∷◌, arith}
use mes.Core.{car, cdr, length_loop, list_length}
use mes.Eval.{Platform, formals_length, check_formals, pairlis}
use mes.Eval.Correct.{vm_eval-Evaluates, apply-Evaluates}
use mes.Eval.Label.{vm_eval}
use mes.Eval.Reaches.{SameBut, Returns}
use mes.Eval.Semantics.{
  value_of, call_of, head_plain, forms_plain, Evaluates, constant_rule, if_false_rule, closure_rule,
  last_rule,
}
use mes.Eval.Step.{apply}
use mes.Gc.Drive.{gc_with, gc_}
use mes.Gc.Grow.{gc_-without_growth}
use mes.Heap.{Cell, Heap, ok, pure, cell}
use mes.Heap.Alloc.{alloc, make_cell, cons}
use mes.Heap.Const.{
  t_closure, t_number, t_pair, t_symbol, cell_nil, cell_f, cell_unspecified, cell_circular,
}
use mes.Heap.Symbols.{cell_symbol_if}
use mes.Machine.{Machine}
use mes.Tests.{cells_of}

abbrev program : List (ℕ × Cell)
program =
    (100, cell t_number 0 7)
    ∷ (101, cell t_number 0 8)
    ∷ (110, cell t_pair cell_symbol_if 111)
    ∷ (111, cell t_pair cell_f 112)
    ∷ (112, cell t_pair 100 113)
    ∷ (113, cell t_pair 101 cell_nil)
    ∷ (114, cell t_pair 110 cell_nil)
    ∷ (115, cell t_pair 120 cell_nil)
    ∷ (116, cell t_pair 100 cell_nil)
    ∷ (117, cell t_pair 118 119)
    ∷ (118, cell t_pair cell_circular 121)
    ∷ (119, cell t_pair 115 114)
    ∷ (120, cell t_symbol 1 0)
    ∷ (121, cell t_pair cell_nil cell_nil)
    ∷ (122, cell t_closure cell_f 117)
    ∷ []

abbrev program_heap : Heap
program_heap = record {
  cells = cells_of program;
  bytes = λ p i. 0;
  free = 130;
  base = 1;
  arena_size = 1000;
  max_string = 100;
}

abbrev program_machine : Machine
program_machine = record {
  heap = program_heap;
  stack = 20;
  stack_size = 20;
  stack_array = λ i. 0;
  r0 = cell_nil;
  r1 = 110;
  r2 = 0;
  r3 = 0;
  m0 = 0;
  m1 = cell_f;
  symbols = 0;
  macros = 0;
  ports = 0;
  hash_table_type = 0;
  variable_type = 0;
  symbol_max = 100;
  arena = 0;
  max_arena_size = 1000;
  jam_size = 20;
  gc_safety = 10;
  gc_count = 0;
  continuations = 0;
}

abbrev no_platform : Platform
no_platform = record {
  realloc = λ p n. 0;
  call = λ f args. pure cell_unspecified;
  limits = record { rounds = 10; depth = 10 };
}

condition_lem :
    (d e : ℕ)
    → Evaluates (no_platform.limits) 10 (suc d) value_of e 110 program_heap 101 program_heap
condition_lem d e =
    if_false_rule (head_plain refl refl) refl (constant_rule refl) refl (constant_rule refl)

vm_eval-Evaluates_example : Returns no_platform vm_eval program_machine 20 10 101 program_heap
vm_eval-Evaluates_example =
    vm_eval-Evaluates no_platform program_machine (condition_lem 0 cell_nil) (omega arith)

call_lem :
    (h₁ : Heap) × (h' : Heap) × (cons 122 116 program_heap ≡ ok 130 h₁)
    × Evaluates (no_platform.limits) 10 1 call_of cell_nil 130 h₁ 101 h'
unfolding make_cell alloc check_formals formals_length list_length length_loop pairlis car cdr
call_lem = (
  _,
  _,
  refl,
  closure_rule refl refl refl refl refl (
      last_rule (forms_plain refl refl refl) refl
        (if_false_rule (head_plain refl refl) refl (constant_rule refl) refl (constant_rule refl))),
)

apply-Evaluates_example :
    (n : Machine) × (j : ℕ) × ((k : ℕ)
      → apply (j + k) no_platform 122 116 cell_nil program_machine ≡ ok 101 n)
    × ((n.heap ≡ call_lem.1) × (n.stack ≡ 20) × (n.r0 ≡ cell_nil))
    × SameBut 20 program_machine n
apply-Evaluates_example =
    apply-Evaluates no_platform 122 116 cell_nil program_machine call_lem.2 call_lem.3 (omega arith)

gc_-without_growth_example :
    gc_ (λ p n. 0) 10 program_machine ≡ gc_with (λ m. ok tt m) 10 program_machine
gc_-without_growth_example = gc_-without_growth (λ p n. 0) 10 program_machine
