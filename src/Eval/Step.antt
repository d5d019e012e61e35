-- ===== src/Eval/Step.antt =====
-- The register machine of src/eval-apply.c: the blocks at the labels, `eval_apply` and `apply`.
use mes.Base.{ℕ, zero, suc, Bool, true, false, Option, none, some, ◌==◌, if◌then◌else◌}
use mes.Eval.{Platform, Applier}
use mes.Eval.Apply.{evlis_block, evlis2_block, evlis3_block, apply_block, apply2_block}
use mes.Eval.Begin.{
  begin_loop_block, begin_eval_block, begin_expand_loop_block, begin_expand_while_block,
  begin_expand_macro_block, begin_expand_eval_block,
}
use mes.Eval.Control.{
  vm_if_block, if_expr_block, call_with_current_continuation_block,
  call_with_current_continuation2_block, call_with_values_block, call_with_values2_block,
  vm_return_block,
}
use mes.Eval.Define.{eval_define_block}
use mes.Eval.Expr.{
  eval_block, eval_set_x_block, eval_macro_expand_eval_block, eval_check_func_block, eval2_block,
}
use mes.Eval.Label.{
  Label, dispatch, evlis, evlis2, evlis3, vm_apply, apply2, vm_eval, eval_set_x,
  eval_macro_expand_eval, eval_macro_expand_expand, eval_define, eval_check_func, eval2,
  macro_expand, macro_expand_lambda, macro_expand_define, macro_expand_define_macro,
  macro_expand_set_x, macro_expand_car, macro_expand_cdr, vm_begin, begin_eval, begin_expand,
  begin_expand_while, begin_expand_macro, begin_expand_eval, begin_loop, begin_expand_loop, vm_if,
  if_expr, call_with_current_continuation, call_with_current_continuation2, call_with_values,
  call_with_values2, vm_return, returned, Block, goto,
}
use mes.Eval.Macro.{
  macro_expand_block, macro_expand_lambda_block, macro_expand_define_block,
  macro_expand_define_macro_block, macro_expand_set_x_block, macro_expand_car_block,
  macro_expand_cdr_block,
}
use mes.Heap.{Run, ok, abort, out_of_fuel, ◌>>=◌, ◌>>◌}
use mes.Heap.Alloc.{cons}
use mes.Heap.Const.{cell_unspecified}
use mes.Heap.Symbols.{
  cell_vm_apply, cell_vm_apply2, cell_vm_begin, cell_vm_begin_eval, cell_vm_begin_expand,
  cell_vm_begin_expand_eval, cell_vm_begin_expand_macro, cell_vm_call_with_current_continuation2,
  cell_vm_call_with_values2, cell_vm_eval, cell_vm_eval2, cell_vm_eval_check_func,
  cell_vm_eval_define, cell_vm_eval_macro_expand_eval, cell_vm_eval_macro_expand_expand,
  cell_vm_eval_set_x, cell_vm_evlis, cell_vm_evlis2, cell_vm_evlis3, cell_vm_if, cell_vm_if_expr,
  cell_vm_macro_expand, cell_vm_macro_expand_car, cell_vm_macro_expand_cdr,
  cell_vm_macro_expand_define, cell_vm_macro_expand_define_macro, cell_vm_macro_expand_lambda,
  cell_vm_macro_expand_set_x, cell_vm_return,
}
use mes.Machine.{Machine, on_heap, push_cc}

-- The label that a continuation names; a word that names none ends the program.
unfoldable pub label_of : ℕ → Option Label
label_of c =
    if c == cell_vm_evlis2
    then some evlis2
    else if c == cell_vm_evlis3
    then some evlis3
    else if c == cell_vm_eval_check_func
    then some eval_check_func
    else if c == cell_vm_eval2
    then some eval2
    else if c == cell_vm_apply2
    then some apply2
    else if c == cell_vm_if_expr
    then some if_expr
    else if c == cell_vm_begin_eval
    then some begin_eval
    else if c == cell_vm_eval_set_x
    then some eval_set_x
    else if c == cell_vm_macro_expand_car
    then some macro_expand_car
    else if c == cell_vm_return
    then some vm_return
    else if c == cell_vm_macro_expand_cdr
    then some macro_expand_cdr
    else if c == cell_vm_eval_define
    then some eval_define
    else if c == cell_vm_macro_expand
    then some macro_expand
    else if c == cell_vm_macro_expand_lambda
    then some macro_expand_lambda
    else if c == cell_vm_begin_expand_macro
    then some begin_expand_macro
    else if c == cell_vm_macro_expand_define
    then some macro_expand_define
    else if c == cell_vm_begin_expand_eval
    then some begin_expand_eval
    else if c == cell_vm_call_with_current_continuation2
    then some call_with_current_continuation2
    else if c == cell_vm_macro_expand_set_x
    then some macro_expand_set_x
    else if c == cell_vm_macro_expand_define_macro
    then some macro_expand_define_macro
    else if c == cell_vm_evlis
    then some evlis
    else if c == cell_vm_apply
    then some vm_apply
    else if c == cell_vm_eval
    then some vm_eval
    else if c == cell_vm_eval_macro_expand_eval
    then some eval_macro_expand_eval
    else if c == cell_vm_eval_macro_expand_expand
    then some eval_macro_expand_expand
    else if c == cell_vm_begin
    then some vm_begin
    else if c == cell_vm_begin_expand
    then some begin_expand
    else if c == cell_vm_if
    then some vm_if
    else if c == cell_vm_call_with_values2
    then some call_with_values2
    else if c == cell_unspecified
    then some returned
    else none

unfoldable pub dispatch_block : Block
dispatch_block m = elim (label_of m.r3) [ none ↦ abort | some l ↦ ok l m ]

unfoldable pub step : Platform → Applier → Label → Block
step p applier dispatch = dispatch_block
step p applier evlis = evlis_block
step p applier evlis2 = evlis2_block
step p applier evlis3 = evlis3_block
step p applier vm_apply = apply_block p
step p applier apply2 = apply2_block
step p applier vm_eval = eval_block p applier
step p applier eval_set_x = eval_set_x_block applier p.limits
step p applier eval_macro_expand_eval = eval_macro_expand_eval_block
step p applier eval_macro_expand_expand = goto vm_return
step p applier eval_define = eval_define_block applier p.limits
step p applier eval_check_func = eval_check_func_block
step p applier eval2 = eval2_block
step p applier macro_expand = macro_expand_block applier p.limits
step p applier macro_expand_lambda = macro_expand_lambda_block
step p applier macro_expand_define = macro_expand_define_block
step p applier macro_expand_define_macro = macro_expand_define_macro_block
step p applier macro_expand_set_x = macro_expand_set_x_block
step p applier macro_expand_car = macro_expand_car_block
step p applier macro_expand_cdr = macro_expand_cdr_block
step p applier vm_begin = goto (begin_loop cell_unspecified)
step p applier begin_eval = begin_eval_block
step p applier begin_expand = goto (begin_expand_loop cell_unspecified)
step p applier begin_expand_while = begin_expand_while_block p
step p applier begin_expand_macro = begin_expand_macro_block p applier
step p applier begin_expand_eval = begin_expand_eval_block
step p applier (begin_loop x) = begin_loop_block p x
step p applier (begin_expand_loop x) = begin_expand_loop_block x
step p applier vm_if = vm_if_block
step p applier if_expr = if_expr_block
step p applier call_with_current_continuation = call_with_current_continuation_block
step p applier call_with_current_continuation2 = call_with_current_continuation2_block
step p applier call_with_values = call_with_values_block
step p applier call_with_values2 = call_with_values2_block
step p applier vm_return = vm_return_block
step p applier returned = goto returned

-- `apply` around a run of the machine from `dispatch`.
abbrev pub apply_with : (Machine → Run Machine ℕ) → Applier
apply_with eval f x a = do
  call ← on_heap (cons f x)
  push_cc call cell_unspecified a cell_unspecified
  λ m. eval (record m { r3 = cell_vm_apply })

abbrev pub is_returned : Label → Bool
is_returned returned = true
is_returned _ = false

-- The machine from a label on, for so many steps, those of the calls of `apply` within them
-- included.
unfoldable pub run_from : ℕ → Platform → Label → Machine → Run Machine ℕ
run_from zero p l m = out_of_fuel
run_from (suc k) p l m =
    let rest = run_from k p in
    if is_returned l then ok m.r1 m else (do l' ← step p (apply_with (rest dispatch)) l; rest l') m

unfoldable pub eval_apply : ℕ → Platform → Machine → Run Machine ℕ
eval_apply k p = run_from k p dispatch

unfoldable pub apply : ℕ → Platform → Applier
apply k p = apply_with (eval_apply k p)
