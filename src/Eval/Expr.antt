-- ===== src/Eval/Expr.antt =====
-- The label `eval` of src/eval-apply.c, and those that its parts come back to.
use mes.Base.{not, ◌&&◌, ◌||◌, ◌==◌, if◌then◌else◌}
use mes.Eval.{
  Platform, Applier, fail, assert_defined, make_closure_, binding_value, lookup_value, set_x,
}
use mes.Eval.Define.{define_block}
use mes.Eval.Label.{
  evlis, vm_apply, vm_eval, macro_expand, vm_begin, vm_if, vm_return, Block, goto, push_goto,
  set_r1, r1_from, cadr_at, cddr_at, caddr_at,
}
use mes.Gc.Drive.{gc_check}
use mes.Heap.{
  system_error, unbound_variable, object, Run, ok, ◌>>=◌, ◌>>◌, type_at, car_at, cdr_at, write_car,
}
use mes.Heap.Alloc.{cons}
use mes.Heap.Const.{t_pair, t_symbol, t_binding, t_broken_heart, cell_undefined}
use mes.Heap.Symbols.{
  cell_vm_eval2, cell_vm_eval_check_func, cell_vm_eval_macro_expand_eval,
  cell_vm_eval_macro_expand_expand, cell_vm_eval_set_x, cell_vm_macro_expand, cell_symbol_lambda,
  cell_symbol_begin, cell_symbol_if, cell_symbol_quote, cell_symbol_define,
  cell_symbol_define_macro, cell_symbol_set_x, cell_symbol_call_with_current_continuation,
  cell_symbol_current_environment,
}
use mes.Machine.{Machine, on_heap, push_cc}
use mes.Modules.{Limits}

-- A pair whose head is a binding gets the head's value in its place.
unfoldable pub resolve_head : Machine → Run Machine (Unit {0})
resolve_head m =
    let c = car_at m.heap m.r1 in
    if not (type_at m.heap c == t_binding)
    then ok tt m
    else (do
      value ← on_heap (binding_value c)
      λ m.
          let m = record m { heap = write_car m.heap m.r1 value } in
          if value == cell_undefined
          then fail unbound_variable (object (car_at m.heap (car_at m.heap c))) m
          else ok tt m)
        m

-- A call: the arguments are evaluated after the procedure.
unfoldable pub eval_call : Platform → Block
eval_call p m =
    (do
      push_cc (car_at m.heap m.r1) m.r1 m.r0 cell_vm_eval_check_func
      _ ← gc_check p.realloc p.limits.rounds
      goto vm_eval)
      m

unfoldable pub eval_form : Platform → Applier → Block
eval_form p applier m =
    let h = m.heap in
    let c = car_at h m.r1 in
    if c == cell_symbol_quote
    then set_r1 (cadr_at h m.r1) vm_return m
    else if c == cell_symbol_begin
    then goto vm_begin m
    else if c == cell_symbol_lambda
    then r1_from (make_closure_ (cadr_at h m.r1) (cddr_at h m.r1) m.r0) vm_return m
    else if c == cell_symbol_if
    then set_r1 (cdr_at h m.r1) vm_if m
    else if c == cell_symbol_set_x
    then push_goto (caddr_at h m.r1) m.r1 m.r0 cell_vm_eval_set_x vm_eval m
    else if c == cell_vm_macro_expand
    then push_goto (cadr_at h m.r1) m.r1 m.r0 cell_vm_eval_macro_expand_eval vm_eval m
    else if (type_at h m.r1 == t_pair)
        && ((c == cell_symbol_define) || (c == cell_symbol_define_macro))
    then define_block applier p.limits m
    else eval_call p m

unfoldable pub eval_symbol : Applier → Limits → Block
eval_symbol applier l m =
    let x = m.r1 in
    if (x == cell_symbol_current_environment)
      || ((x == cell_symbol_begin) || (x == cell_symbol_call_with_current_continuation))
    then goto vm_return m
    else (do
      value ← lookup_value applier l x
      λ m. (do e ← assert_defined m.r1 value; set_r1 e vm_return) m)
        m

unfoldable pub eval_binding : Block
eval_binding m =
    let name = car_at m.heap (car_at m.heap m.r1) in
    (do
      value ← on_heap (binding_value m.r1)
      λ m.
          let m = record m { r1 = value } in
          if value == cell_undefined
          then fail unbound_variable (object name) m
          else goto vm_return m)
      m

unfoldable pub eval_block : Platform → Applier → Block
eval_block p applier m =
    let t = type_at m.heap m.r1 in
    if t == t_pair
    then (do resolve_head; eval_form p applier) m
    else if t == t_symbol
    then eval_symbol applier p.limits m
    else if t == t_binding
    then eval_binding m
    else if t == t_broken_heart
    then fail system_error (object m.r1) m
    else goto vm_return m

unfoldable pub eval_set_x_block : Applier → Limits → Block
eval_set_x_block applier l m =
    (do x ← set_x applier l (cadr_at m.heap m.r2) m.r1 0; set_r1 x vm_return) m

unfoldable pub eval_macro_expand_eval_block : Block
eval_macro_expand_eval_block m =
    push_goto m.r1 m.r2 m.r0 cell_vm_eval_macro_expand_expand macro_expand m

unfoldable pub eval_check_func_block : Block
eval_check_func_block m = push_goto (cdr_at m.heap m.r2) m.r2 m.r0 cell_vm_eval2 evlis m

unfoldable pub eval2_block : Block
eval2_block m = r1_from (cons (car_at m.heap m.r2) m.r1) vm_apply m
