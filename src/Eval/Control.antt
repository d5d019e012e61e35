-- ===== src/Eval/Control.antt =====
-- The labels of src/eval-apply.c for `if`, continuations, multiple values and the return.
use mes.Base.{ℕ, zero, suc, ◌+◌, ◌-◌, not, ◌==◌, if◌then◌else◌}
use mes.Eval.Label.{
  dispatch, vm_apply, vm_eval, vm_return, Block, push_goto, set_r1, r1_from, cadr_at, cddr_at,
  caddr_at,
}
use mes.Heap.{Run, ok, ◌>>=◌, ◌>>◌, pure, type_at, car_at, cdr_at, write_cdr}
use mes.Heap.Alloc.{cons, make_continuation}
use mes.Heap.Const.{t_values, cell_nil, cell_f, cell_unspecified}
use mes.Heap.Symbols.{
  cell_vm_call_with_current_continuation2, cell_vm_call_with_values2, cell_vm_if_expr,
}
use mes.Machine.{Machine, on_heap, gc_pop_frame}
use mes.Vector.{make_vector_, vector_set_x_}

unfoldable pub vm_if_block : Block
vm_if_block m = push_goto (car_at m.heap m.r1) m.r1 m.r0 cell_vm_if_expr vm_eval m

unfoldable pub if_expr_block : Block
if_expr_block m =
    let h = m.heap in
    let x = m.r1 in
    let form = m.r2 in
    if not (x == cell_f)
    then set_r1 (cadr_at h form) vm_eval m
    else if not (cddr_at h form == cell_nil)
    then set_r1 (caddr_at h form) vm_eval m
    else set_r1 cell_unspecified vm_return m

-- The slots of the stack from `s + i` on, `n` of them, as the entries of the vector `v` from `i` on.
unfoldable pub save_stack : ℕ → ℕ → ℕ → ℕ → Machine → Run Machine (Unit {0})
save_stack zero i s v m = ok tt m
save_stack (suc n) i s v m =
    (do _ ← on_heap (vector_set_x_ v i (m.stack_array (s + i))); save_stack n (i + 1) s v) m

-- The stack in use, as a vector.
unfoldable pub stack_vector : Machine → Run Machine ℕ
stack_vector m =
    let n = m.stack_size - m.stack in
    (do v ← on_heap (make_vector_ n cell_unspecified); save_stack n 0 m.stack v; pure v) m

unfoldable pub call_with_current_continuation_block : Block
call_with_current_continuation_block m =
    (do
      x ← on_heap (make_continuation m.stack m.continuations)
      v ← (λ m. stack_vector (record m { continuations = m.continuations + 1 }))
      λ m.
          (do
            args ← on_heap (cons x cell_nil)
            call ← on_heap (cons (car_at m.heap m.r1) args)
            push_goto call x m.r0 cell_vm_call_with_current_continuation2 vm_apply)
            (record m { heap = write_cdr m.heap x v }))
      m

unfoldable pub call_with_current_continuation2_block : Block
call_with_current_continuation2_block = do
  v ← stack_vector
  λ m. ok vm_return (record m { heap = write_cdr m.heap m.r2 v })

unfoldable pub call_with_values_block : Block
call_with_values_block m =
    (do
      call ← on_heap (cons (car_at m.heap m.r1) cell_nil)
      push_goto call m.r1 m.r0 cell_vm_call_with_values2 vm_apply)
      m

unfoldable pub call_with_values2_block : Block
call_with_values2_block m =
    (do
      args ←
          (if type_at m.heap m.r1 == t_values
            then pure (cdr_at m.heap m.r1)
            else on_heap (cons m.r1 cell_nil))
      λ m. r1_from (cons (cadr_at m.heap m.r2) args) vm_apply m)
      m

unfoldable pub vm_return_block : Block
vm_return_block m = let x = m.r1 in (do gc_pop_frame; set_r1 x dispatch) m
