-- ===== src/Eval/Macro.antt =====
-- The labels of src/eval-apply.c that expand the macros of a form.
use mes.Base.{ℕ, not, ◌&&◌, ◌||◌, ◌==◌, if◌then◌else◌}
use mes.Core.{assq}
use mes.Eval.{Applier, macro_get_handle, get_macro, lookup_value}
use mes.Eval.Label.{
  vm_apply, vm_eval, macro_expand, vm_return, Block, goto, push_goto, set_r1, r1_from, cddr_at,
}
use mes.Heap.{Run, ok, ◌>>=◌, pure, type_at, car_at, cdr_at, write_car, write_cdr}
use mes.Heap.Alloc.{cons}
use mes.Heap.Const.{t_pair, t_symbol, cell_nil, cell_f, cell_undefined}
use mes.Heap.Symbols.{
  cell_vm_macro_expand, cell_vm_macro_expand_car, cell_vm_macro_expand_cdr,
  cell_vm_macro_expand_define, cell_vm_macro_expand_define_macro, cell_vm_macro_expand_lambda,
  cell_vm_macro_expand_set_x, cell_symbol_lambda, cell_symbol_begin, cell_symbol_quote,
  cell_symbol_define, cell_symbol_define_macro, cell_symbol_set_x, cell_symbol_macro_expand,
  cell_symbol_portable_macro_expand, cell_symbol_sc_expander_alist,
}
use mes.Machine.{Machine, on_heap}
use mes.Modules.{Limits}

-- The macro expander that a program has defined for a name of its table, if there is one.
unfoldable pub portable_expander : Applier → Limits → Machine → Run Machine ℕ
portable_expander applier l m =
    let a = car_at m.heap m.r1 in
    if not ((type_at m.heap a == t_symbol) && not (a == cell_symbol_begin))
    then ok cell_f m
    else (do
      macro ← macro_get_handle l cell_symbol_portable_macro_expand
      expanders ←
          (if not (macro == cell_f)
            then lookup_value applier l cell_symbol_sc_expander_alist
            else pure cell_undefined)
      entry ←
          (if not (expanders == cell_undefined)
            then (λ m. on_heap (assq l.rounds (car_at m.heap m.r1) expanders) m)
            else pure cell_f)
      λ m.
          if entry == cell_f
          then ok cell_f m
          else (do
            sc_expand ← lookup_value applier l cell_symbol_macro_expand
            λ m.
                ok (if sc_expand == cell_undefined then cell_f else sc_expand)
                  (record m { r2 = m.r1 }))
              m)
        m

-- A form whose head is no macro.
unfoldable pub expand_head : Applier → Limits → Block
expand_head applier l m =
    (do
      sc_expand ← portable_expander applier l
      λ m.
          if not (sc_expand == cell_f)
          then (do args ← on_heap (cons m.r1 cell_nil); r1_from (cons sc_expand args) vm_apply) m
          else push_goto (car_at m.heap m.r1) m.r1 m.r0 cell_vm_macro_expand_car macro_expand m)
      m

unfoldable pub macro_expand_block : Applier → Limits → Block
macro_expand_block applier l m =
    let h = m.heap in
    let a = car_at h m.r1 in
    if not (type_at h m.r1 == t_pair) || (a == cell_symbol_quote)
    then goto vm_return m
    else if a == cell_symbol_lambda
    then push_goto (cddr_at h m.r1) m.r1 m.r0 cell_vm_macro_expand_lambda macro_expand m
    else if (a == cell_symbol_define) || (a == cell_symbol_define_macro)
    then push_goto (cddr_at h m.r1) m.r1 m.r0 cell_vm_macro_expand_define macro_expand m
    else if a == cell_symbol_set_x
    then push_goto (cddr_at h m.r1) m.r1 m.r0 cell_vm_macro_expand_set_x macro_expand m
    else (do
      macro ← get_macro l a
      λ m.
          if not (macro == cell_f)
          then (do
            r1 ← on_heap (cons macro (cdr_at m.heap m.r1))
            λ m. push_goto r1 cell_nil m.r0 cell_vm_macro_expand vm_apply (record m { r1 = r1 }))
              m
          else expand_head applier l m)
        m

-- `R2->cdr->cdr = R1; R1 = R2`.
unfoldable pub put_body : Machine → Machine
put_body m = record m { heap = write_cdr m.heap (cdr_at m.heap m.r2) m.r1; r1 = m.r2 }

unfoldable pub macro_expand_lambda_block : Block
macro_expand_lambda_block m = goto vm_return (put_body m)

-- A macro is defined where it is expanded.
unfoldable pub macro_expand_define_block : Block
macro_expand_define_block m =
    let m = put_body m in
    if car_at m.heap m.r1 == cell_symbol_define_macro
    then push_goto m.r1 m.r1 m.r0 cell_vm_macro_expand_define_macro vm_eval m
    else goto vm_return m

unfoldable pub macro_expand_define_macro_block : Block
macro_expand_define_macro_block m = set_r1 m.r2 vm_return m

unfoldable pub macro_expand_set_x_block : Block
macro_expand_set_x_block m = goto vm_return (put_body m)

unfoldable pub macro_expand_car_block : Block
macro_expand_car_block m =
    let m = record m { heap = write_car m.heap m.r2 m.r1; r1 = m.r2 } in
    if cdr_at m.heap m.r1 == cell_nil
    then goto vm_return m
    else push_goto (cdr_at m.heap m.r1) m.r1 m.r0 cell_vm_macro_expand_cdr macro_expand m

unfoldable pub macro_expand_cdr_block : Block
macro_expand_cdr_block m = ok vm_return (record m { heap = write_cdr m.heap m.r2 m.r1; r1 = m.r2 })
