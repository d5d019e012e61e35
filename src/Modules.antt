-- ===== src/Modules.antt =====
-- src/variable.c and src/module.c: variables are structs, and a module maps names to variables.
use mes.Base.{ℕ, zero, suc, true, false, not, ◌&&◌, List, [], ◌∷◌, ◌==◌, if◌then◌else◌}
use mes.Core.{truth, values, append2}
use mes.Hash.{hashq_ref_, hashq_set_x, hashq_create_handle_x, make_hash_table_}
use mes.Heap.{Heap, Run, ok, out_of_fuel, ◌>>=◌, ◌>>◌, pure, type_at, car_at, cdr_at}
use mes.Heap.Alloc.{cons}
use mes.Heap.Const.{t_pair, t_struct, cell_nil, cell_f, cell_undefined, cell_unspecified}
use mes.Heap.Symbols.{
  cell_symbol_record_type, cell_symbol_variable, cell_symbol_standard_eval_closure,
  cell_symbol_standard_interface_eval_closure, cell_symbol_hashq_table,
}
use mes.Machine.{Machine, on_heap, gc_push_frame, gc_pop_frame}
use mes.Struct.{make_struct, struct_ref_, struct_set_x_}
use mes.Symbols.{cstring_to_symbol}

-- The number of rounds that a loop may run, and the depth of `equal2_p`.
pub record Limits : Type 0 where
  pub rounds : ℕ
  pub depth : ℕ

-- The field index of a variable, and those of a module.
abbrev pub variable_value : ℕ
variable_value = 3

abbrev pub module_obarray : ℕ
module_obarray = 3

abbrev pub module_uses : ℕ
module_uses = 4

abbrev pub module_eval_closure : ℕ
module_eval_closure = 6

unfoldable pub make_variable_type : Limits → Machine → Run Machine ℕ
make_variable_type l m =
    if not (m.variable_type == 0)
    then ok m.variable_type m
    else (do
      value ←
          on_heap
            (cstring_to_symbol l.depth l.rounds m.symbols (b'v' ∷ b'a' ∷ b'l' ∷ b'u' ∷ b'e' ∷ []))
      fields ← on_heap (cons value cell_nil)
      fields ← on_heap (cons fields cell_nil)
      fields ← on_heap (cons cell_symbol_variable fields)
      type ← on_heap (make_struct l.rounds cell_symbol_record_type fields cell_unspecified)
      λ m. ok type (record m { variable_type = type }))
        m

abbrev pub printer_name : List ℕ
printer_name =
    b'v' ∷ b'a' ∷ b'r' ∷ b'i' ∷ b'a' ∷ b'b' ∷ b'l' ∷ b'e' ∷ b'-' ∷ b'p' ∷ b'r' ∷ b'i' ∷ b'n' ∷ b't'
    ∷ b'e' ∷ b'r' ∷ []

unfoldable pub make_variable : Limits → ℕ → Machine → Run Machine ℕ
make_variable l value = do
  type ← make_variable_type l
  values ← on_heap (cons value cell_nil)
  values ← on_heap (cons cell_symbol_variable values)
  printer ← (λ m. on_heap (cstring_to_symbol l.depth l.rounds m.symbols printer_name) m)
  on_heap (make_struct l.rounds type values printer)

unfoldable pub variable_p : Limits → ℕ → Machine → Run Machine ℕ
variable_p l x = do
  type ← make_variable_type l
  λ m.
      if type_at m.heap x == t_struct
      then (do t ← on_heap (struct_ref_ x 0); pure (truth (t == type))) m
      else ok cell_f m

unfoldable pub variable_ref : ℕ → Heap → Run Heap ℕ
variable_ref var = struct_ref_ var variable_value

unfoldable pub variable_set_x : ℕ → ℕ → Heap → Run Heap ℕ
variable_set_x var val = struct_set_x_ var variable_value val

unfoldable pub set_current_module : ℕ → Machine → Run Machine ℕ
set_current_module module' m = ok m.m1 (record m { m1 = module' })

unfoldable pub module_make_local_var_x : Limits → ℕ → ℕ → Machine → Run Machine ℕ
module_make_local_var_x l module' name = do
  obarray ← on_heap (struct_ref_ module' module_obarray)
  variable ← make_variable l cell_undefined
  handle ← on_heap (hashq_create_handle_x l.rounds obarray name variable)
  λ m. ok (cdr_at m.heap handle) m

-- The search through `modules`, a list that the uses of each module are put in front of.
unfoldable pub module_variable_loop : ℕ → Limits → ℕ → ℕ → Heap → Run Heap ℕ
module_variable_loop zero l modules name h = out_of_fuel
module_variable_loop (suc k) l modules name h =
    let module' = car_at h modules in
    let rest = module_variable_loop k l in
    if type_at h modules == t_pair
    then (do
      obarray ← struct_ref_ module' module_obarray
      variable ← hashq_ref_ l.rounds obarray name cell_f
      λ h. elim (variable == cell_f) [
        | false ↦ ok variable h
        | true ↦
            (do
              uses ← struct_ref_ module' module_uses
              rest_modules ← (λ h. append2 l.rounds uses (cdr_at h modules) h)
              rest rest_modules name)
              h
      ])
        h
    else ok cell_f h

unfoldable pub module_variable : Limits → ℕ → ℕ → Heap → Run Heap ℕ
module_variable l module' name = do
  modules ← cons module' cell_nil
  module_variable_loop l.rounds l modules name

unfoldable pub standard_eval_closure : Limits → ℕ → ℕ → Machine → Run Machine ℕ
standard_eval_closure l name define_p m =
    if define_p == cell_f
    then on_heap (module_variable l m.m1 name) m
    else module_make_local_var_x l m.m1 name m

unfoldable pub standard_interface_eval_closure : Limits → ℕ → ℕ → Machine → Run Machine ℕ
standard_interface_eval_closure l name define_p m =
    if define_p == cell_f then on_heap (module_variable l m.m1 name) m else ok cell_f m

-- `current_module_variable` before the module system is booted: the table is the module itself.
unfoldable pub initial_module_variable : Limits → ℕ → ℕ → Machine → Run Machine ℕ
initial_module_variable l name define_p m =
    let module' = m.m0 in
    (do
      variable ← on_heap (hashq_ref_ l.rounds module' name cell_f)
      λ m.
          if (variable == cell_f) && not (define_p == cell_f)
          then (do var ← make_variable l cell_undefined; on_heap (hashq_set_x module' name var)) m
          else ok variable m)
      m

-- `applier` is the evaluator's, called for an eval closure that is a procedure.
unfoldable pub current_module_variable :
    (ℕ → ℕ → ℕ → Machine → Run Machine ℕ) → Limits → ℕ → ℕ → Machine → Run Machine ℕ
current_module_variable applier l name define_p m =
    let module' = m.m1 in
    if module' == cell_f
    then initial_module_variable l name define_p m
    else (do
      closure ← on_heap (struct_ref_ module' module_eval_closure)
      λ m.
          if closure == cell_symbol_standard_eval_closure
          then standard_eval_closure l name define_p m
          else if closure == cell_symbol_standard_interface_eval_closure
          then standard_interface_eval_closure l name define_p m
          else (do
            args ← on_heap (cons define_p cell_nil)
            args ← on_heap (cons name args)
            gc_push_frame
            result ← applier closure args cell_nil
            gc_pop_frame
            pure result)
              m)
        m

-- The loop of `make_initial_module` along the association list `a`.
unfoldable pub initial_module_loop : ℕ → Limits → ℕ → ℕ → Machine → Run Machine (Unit {0})
initial_module_loop zero l module' a m = out_of_fuel
initial_module_loop (suc k) l module' a m =
    let entry = car_at m.heap a in
    let rest = initial_module_loop k l module' in
    if type_at m.heap a == t_pair
    then (do
      var ← make_variable l (cdr_at m.heap entry)
      _ ← (λ m. on_heap (hashq_set_x module' (car_at m.heap entry) var) m)
      λ m. rest (cdr_at m.heap a) m)
        m
    else ok tt m

unfoldable pub make_initial_module : Limits → ℕ → Machine → Run Machine ℕ
make_initial_module l a = do
  module' ←
      (λ m. on_heap (make_hash_table_ l.rounds m.hash_table_type cell_symbol_hashq_table 100) m)
  initial_module_loop l.rounds l module' a
  pure module'
