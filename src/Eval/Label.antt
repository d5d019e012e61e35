-- ===== src/Eval/Label.antt =====
-- The labels of `eval_apply` in src/eval-apply.c, and the moves between them.
use mes.Base.{ℕ}
use mes.Heap.{Heap, Run, ok, ◌>>=◌, ◌>>◌, car_at, cdr_at}
use mes.Machine.{Machine, on_heap, push_cc}

-- `dispatch` is `eval_apply`, where `R3` names the next label. `begin_loop` and
-- `begin_expand_loop` are the tests of the two loops, with the local variable `x`; `returned` is the
-- end of the function, with its value in `R1`.
pub data Label : Type 0 where
  dispatch evlis evlis2 evlis3 vm_apply apply2 vm_eval eval_set_x : Label
  eval_macro_expand_eval eval_macro_expand_expand eval_define eval_check_func eval2 : Label
  macro_expand macro_expand_lambda macro_expand_define macro_expand_define_macro : Label
  macro_expand_set_x macro_expand_car macro_expand_cdr : Label
  vm_begin begin_eval begin_expand begin_expand_while begin_expand_macro begin_expand_eval : Label
  begin_loop begin_expand_loop : ℕ → Label
  vm_if if_expr call_with_current_continuation call_with_current_continuation2 : Label
  call_with_values call_with_values2 vm_return returned : Label

-- A block of code that ends with a jump.
abbrev pub Block : Type 0
Block = Machine → Run Machine Label

abbrev pub goto : Label → Block
goto l m = ok l m

abbrev pub push_goto : ℕ → ℕ → ℕ → ℕ → Label → Block
push_goto p1 p2 a c l = do push_cc p1 p2 a c; goto l

-- `R1 = x; goto l`.
abbrev pub set_r1 : ℕ → Label → Block
set_r1 x l m = ok l (record m { r1 = x })

-- `R1` is what an operation of the heap returns.
abbrev pub r1_from : (Heap → Run Heap ℕ) → Label → Block
r1_from f l = do x ← on_heap f; set_r1 x l

-- `p->cdr->car` and its like.
abbrev pub cadr_at : Heap → ℕ → ℕ
cadr_at h p = car_at h (cdr_at h p)

abbrev pub cddr_at : Heap → ℕ → ℕ
cddr_at h p = cdr_at h (cdr_at h p)

abbrev pub caddr_at : Heap → ℕ → ℕ
caddr_at h p = car_at h (cddr_at h p)
