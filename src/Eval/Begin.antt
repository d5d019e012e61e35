-- ===== src/Eval/Begin.antt =====
-- The labels `begin` and `begin_expand` of src/eval-apply.c, and their loops.
use mes.Base.{ℕ, not, ◌&&◌, ◌==◌, if◌then◌else◌}
use mes.Core.{append2}
use mes.Eval.{Platform, Applier, lookup_binding}
use mes.Eval.Expand.{expand_variable}
use mes.Eval.Label.{
  vm_eval, macro_expand, begin_expand_while, begin_loop, begin_expand_loop, vm_return, Block, goto,
  push_goto, set_r1, cadr_at,
}
use mes.Gc.Drive.{gc_check}
use mes.Heap.{Run, ok, ◌>>=◌, ◌>>◌, pure, type_at, car_at, cdr_at, write_car}
use mes.Heap.Const.{t_pair, cell_nil, cell_t}
use mes.Heap.Symbols.{
  cell_vm_begin_eval, cell_vm_begin_expand_eval, cell_vm_begin_expand_macro, cell_symbol_begin,
  cell_symbol_define,
}
use mes.Machine.{Machine, on_heap}
use mes.Modules.{Limits}

-- A `begin` at the head of the forms in `R1` is replaced by its own forms.
unfoldable pub splice_begin : Limits → Machine → Run Machine (Unit {0})
splice_begin l m =
    let h = m.heap in
    let a = car_at h m.r1 in
    if (type_at h m.r1 == t_pair) && ((type_at h a == t_pair) && (car_at h a == cell_symbol_begin))
    then (do
      r1 ← on_heap (append2 l.rounds (cdr_at h a) (cdr_at h m.r1))
      λ m. ok tt (record m { r1 = r1 }))
        m
    else ok tt m

-- The last form is evaluated without a frame.
unfoldable pub begin_form : Block
begin_form m =
    let h = m.heap in
    if cdr_at h m.r1 == cell_nil
    then set_r1 (car_at h m.r1) vm_eval m
    else push_goto (car_at h m.r1) m.r1 m.r0 cell_vm_begin_eval vm_eval m

-- The test of the loop, with the value of the form before.
unfoldable pub begin_loop_block : Platform → ℕ → Block
begin_loop_block p x m =
    if m.r1 == cell_nil
    then set_r1 x vm_return m
    else (do _ ← gc_check p.realloc p.limits.rounds; splice_begin p.limits; begin_form) m

unfoldable pub begin_eval_block : Block
begin_eval_block m = ok (begin_loop m.r1) (record m { r1 = cdr_at m.heap m.r2 })

unfoldable pub begin_expand_loop_block : ℕ → Block
begin_expand_loop_block x m =
    if m.r1 == cell_nil then set_r1 x vm_return m else goto begin_expand_while m

unfoldable pub begin_expand_while_block : Platform → Block
begin_expand_while_block p = do
  _ ← gc_check p.realloc p.limits.rounds
  splice_begin p.limits
  λ m. push_goto (car_at m.heap m.r1) m.r1 m.r0 cell_vm_begin_expand_macro macro_expand m

-- The name of a procedure definition is bound before the form is expanded.
unfoldable pub bind_defined : Applier → Limits → Machine → Run Machine (Unit {0})
bind_defined applier l m =
    let h = m.heap in
    let form = car_at h m.r1 in
    let target = cadr_at h form in
    if (type_at h m.r1 == t_pair)
      && ((type_at h form == t_pair) && (car_at h form == cell_symbol_define))
    then (if (type_at h (cdr_at h form) == t_pair) && (type_at h target == t_pair)
        then (do _ ← lookup_binding applier l (car_at h target) cell_t; pure tt) m
        else ok tt m)
    else ok tt m

-- A form that the expansion has changed is expanded again.
unfoldable pub begin_expand_macro_block : Platform → Applier → Block
begin_expand_macro_block p applier m =
    if not (m.r1 == car_at m.heap m.r2)
    then ok begin_expand_while (record m { heap = write_car m.heap m.r2 m.r1; r1 = m.r2 })
    else (do
      bind_defined applier p.limits
      _ ← (λ m. expand_variable applier p.limits (car_at m.heap m.r1) cell_nil m)
      λ m. push_goto (car_at m.heap m.r1) m.r1 m.r0 cell_vm_begin_expand_eval vm_eval m)
        (record m { r1 = m.r2 })

unfoldable pub begin_expand_eval_block : Block
begin_expand_eval_block m = ok (begin_expand_loop m.r1) (record m { r1 = cdr_at m.heap m.r2 })
