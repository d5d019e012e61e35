-- ===== src/Eval/Define.antt =====
-- `define` and `define-macro` in src/eval-apply.c: the names are bound first, then the value is
-- evaluated, then it is stored at the label `eval_define`.
use mes.Base.{ℕ, Bool, not, ◌||◌, ◌==◌, if◌then◌else◌}
use mes.Core.{car, cdr}
use mes.Eval.{Applier, pairlis, set_cdr_x, macro_get_handle, macro_set_x, lookup_binding, set_x}
use mes.Eval.Expand.{expand_variable}
use mes.Eval.Label.{vm_eval, vm_return, Block, push_goto, set_r1, cadr_at, cddr_at, caddr_at}
use mes.Heap.{Heap, Run, ok, ◌>>=◌, ◌>>◌, pure, type_at, car_at, cdr_at}
use mes.Heap.Alloc.{cons, make_macro}
use mes.Heap.Const.{t_pair, cell_nil, cell_f, cell_t, cell_unspecified, cell_closure}
use mes.Heap.Symbols.{cell_vm_eval_define, cell_symbol_lambda, cell_symbol_define_macro}
use mes.Machine.{Machine, on_heap}
use mes.Modules.{Limits}

-- A definition is global where the environment does not start with a closure's frame.
abbrev pub global_p : Machine → Bool
global_p m = not (car_at m.heap (car_at m.heap m.r0) == cell_closure)

abbrev pub is_define_macro : Heap → ℕ → Bool
is_define_macro h form = car_at h form == cell_symbol_define_macro

-- The name that a definition binds.
abbrev pub defined_name : Heap → ℕ → ℕ
defined_name h form =
    let name = cadr_at h form in if type_at h name == t_pair then car_at h name else name

-- A global name is entered in the table of macros or in the current module.
unfoldable pub declare_global : Applier → Limits → Machine → Run Machine (Unit {0})
declare_global applier l m =
    let name = defined_name m.heap m.r1 in
    if not (global_p m)
    then ok tt m
    else if is_define_macro m.heap m.r1
    then (do
      entry ← macro_get_handle l name
      _ ← (if entry == cell_f then macro_set_x name cell_f else pure cell_unspecified)
      pure tt)
        m
    else (do _ ← lookup_binding applier l name cell_t; pure tt) m

-- `(define name expression)`.
unfoldable pub define_variable : Block
define_variable m =
    let name = cadr_at m.heap m.r1 in
    (do
      entry ← on_heap (cons name name)
      env ← on_heap (cons entry m.r0)
      λ m. push_goto (caddr_at m.heap m.r1) m.r2 env cell_vm_eval_define vm_eval m)
      m

-- `(define (name . formals) . body)`. Whether it is a macro or global was asked before.
unfoldable pub define_procedure : Bool → Applier → Limits → Block
define_procedure expand applier l = do
  _ ← (λ m.
      if expand
      then expand_variable applier l (cddr_at m.heap m.r1) (cdr_at m.heap (cadr_at m.heap m.r1)) m
      else ok cell_unspecified m)
  λ m.
      let h = m.heap in
      let target = cadr_at h m.r1 in
      (do
        env ← on_heap (pairlis l.rounds target target m.r0)
        tail ← on_heap (cons (cdr_at h target) (cddr_at h m.r1))
        r1 ← on_heap (cons cell_symbol_lambda tail)
        λ m. push_goto r1 m.r2 env cell_vm_eval_define vm_eval (record m { r1 = r1 }))
        m

unfoldable pub define_block : Applier → Limits → Block
define_block applier l m =
    let expand = is_define_macro m.heap m.r1 || global_p m in
    (do
      declare_global applier l
      λ m.
          let m = record m { r2 = m.r1 } in
          if type_at m.heap (cadr_at m.heap m.r1) == t_pair
          then define_procedure expand applier l m
          else define_variable m)
      m

-- The value in `R1` is stored as a macro, in the module, or in the frame of the closure.
unfoldable pub store_macro : Limits → ℕ → Machine → Run Machine (Unit {0})
store_macro l name = do
  entry ← macro_get_handle l name
  r1 ← (λ m. on_heap (make_macro name m.r1) m)
  _ ← on_heap (set_cdr_x entry r1)
  pure tt

unfoldable pub store_local : ℕ → Machine → Run Machine (Unit {0})
store_local name m =
    (do
      entry ← on_heap (cons name m.r1)
      aa ← on_heap (cons entry cell_nil)
      rest ← on_heap (cdr m.r0)
      _ ← on_heap (set_cdr_x aa rest)
      _ ← on_heap (set_cdr_x m.r0 aa)
      frame ← on_heap (car m.r0)
      _ ← on_heap (set_cdr_x frame aa)
      pure tt)
      m

unfoldable pub eval_define_block : Applier → Limits → Block
eval_define_block applier l m =
    let name = defined_name m.heap m.r2 in
    (do
      λ m.
          if is_define_macro m.heap m.r2
          then store_macro l name m
          else if global_p m
          then (do _ ← set_x applier l name m.r1 1; pure tt) m
          else store_local name m
      set_r1 cell_unspecified vm_return)
      m
