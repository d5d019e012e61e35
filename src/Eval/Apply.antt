-- ===== src/Eval/Apply.antt =====
-- The labels of src/eval-apply.c at which a procedure is applied.
use mes.Base.{ℕ, zero, suc, ◌+◌, ◌-◌, ◌%◌, Bool, not, ◌&&◌, ◌||◌, [], ◌∷◌, ltb, ◌==◌, if◌then◌else◌}
use mes.Eval.{Platform, check_formals, builtin_p, builtin_arity, check_apply, pairlis, call_lambda}
use mes.Eval.Label.{
  evlis, vm_apply, vm_eval, vm_begin, begin_expand, call_with_current_continuation,
  call_with_values, vm_return, Block, goto, push_goto, set_r1, r1_from, cadr_at, cddr_at, caddr_at,
}
use mes.Heap.{Heap, Run, ok, ◌>>=◌, ◌>>◌, pure, type_at, car_at, cdr_at, update}
use mes.Heap.Alloc.{cons}
use mes.Heap.Const.{
  t_closure, t_continuation, t_pair, t_special, t_struct, t_symbol, t_values, cell_nil, cell_f,
  cell_unspecified,
}
use mes.Heap.Symbols.{
  cell_vm_apply, cell_vm_apply2, cell_vm_begin_expand, cell_vm_eval, cell_vm_evlis2, cell_vm_evlis3,
  cell_vm_return, cell_symbol_lambda, cell_symbol_call_with_values,
  cell_symbol_call_with_current_continuation, cell_symbol_current_environment,
}
use mes.Machine.{Machine, on_heap}
use mes.Vector.{vector_ref_}

-- `arity` is an `int`: -1 is the word of 32 ones.
abbrev pub takes_list : ℕ → Bool
takes_list arity = arity == 4294967295

abbrev pub above : ℕ → ℕ → Bool
above n arity = ltb n arity && ltb arity 2147483648

-- The first of multiple values stands for them, as the first argument.
unfoldable pub first_argument : ℕ → ℕ → Heap → Run Heap ℕ
first_argument arity x h =
    let a = car_at h x in
    if ((above 0 arity || takes_list arity) && not (x == cell_nil)) && (type_at h a == t_values)
    then cons (cadr_at h a) (cdr_at h x) h
    else ok x h

-- The second argument. The rest that is kept starts with the values themselves.
unfoldable pub second_argument : ℕ → ℕ → Heap → Run Heap ℕ
second_argument arity x h =
    let a = car_at h x in
    let d = cdr_at h x in
    let v = car_at h d in
    if (above 1 arity || takes_list arity) && not (x == cell_nil)
    then (if (type_at h d == t_pair) && (type_at h v == t_values)
        then (do c ← cons (cadr_at h v) d; cons a c) h
        else ok x h)
    else ok x h

unfoldable pub apply_builtin : Platform → ℕ → ℕ → Machine → Run Machine ℕ
apply_builtin p fn x = do
  a ← on_heap (builtin_arity fn)
  λ m.
      let arity = cdr_at m.heap a % 4294967296 in
      (do
        x1 ← on_heap (first_argument arity x)
        x2 ← on_heap (second_argument arity x1)
        λ m.
            let h = m.heap in
            if arity == 0
            then p.call fn [] m
            else if arity == 1
            then p.call fn (car_at h x2 ∷ []) m
            else if arity == 2
            then p.call fn (car_at h x2 ∷ cadr_at h x2 ∷ []) m
            else if arity == 3
            then p.call fn (car_at h x2 ∷ cadr_at h x2 ∷ caddr_at h x2 ∷ []) m
            else if takes_list arity
            then p.call fn (x2 ∷ []) m
            else ok cell_unspecified m)
        m

unfoldable pub evlis_block : Block
evlis_block m =
    if m.r1 == cell_nil
    then goto vm_return m
    else if not (type_at m.heap m.r1 == t_pair)
    then goto vm_eval m
    else push_goto (car_at m.heap m.r1) m.r1 m.r0 cell_vm_evlis2 vm_eval m

unfoldable pub evlis2_block : Block
evlis2_block m = push_goto (cdr_at m.heap m.r2) m.r1 m.r0 cell_vm_evlis3 evlis m

unfoldable pub evlis3_block : Block
evlis3_block m = r1_from (cons m.r2 m.r1) vm_return m

unfoldable pub apply_struct : Platform → Block
apply_struct p m =
    let f = car_at m.heap m.r1 in
    let args = cdr_at m.heap m.r1 in
    (do
      arity ← on_heap (builtin_arity f)
      _ ← on_heap (check_formals p.limits f arity args)
      x ← apply_builtin p f args
      set_r1 x vm_return)
      m

unfoldable pub apply_closure : Platform → Block
apply_closure p m =
    let h = m.heap in
    let f = car_at h m.r1 in
    let cl = cdr_at h f in
    let formals = cadr_at h cl in
    let args = cdr_at h m.r1 in
    (do
      _ ← on_heap (check_formals p.limits f formals args)
      env ← on_heap (pairlis p.limits.rounds formals args (cddr_at h (car_at h cl)))
      _ ← call_lambda (cddr_at h cl) env
      goto vm_begin)
      m

-- The slots of the stack from the vector `v`, from `i` on, `n` of them; the first goes to `s + i`.
unfoldable pub restore_stack : ℕ → ℕ → ℕ → ℕ → Machine → Run Machine (Unit {0})
restore_stack zero i s v = pure tt
restore_stack (suc n) i s v = do
  x ← on_heap (vector_ref_ v i)
  λ m. ok tt (record m { stack_array = update m.stack_array (s + i) x })
  restore_stack n (i + 1) s v

unfoldable pub apply_continuation : Block
apply_continuation m =
    let h = m.heap in
    let v = cdr_at h (car_at h m.r1) in
    let length = car_at h v in
    let s = m.stack_size - length in
    (do
      λ m.
          if length == 0
          then ok tt m
          else (do restore_stack length 0 s v; λ m. ok tt (record m { stack = s })) m
      λ m. set_r1 (cadr_at m.heap m.r1) vm_return m)
      m

-- A procedure that is an expression yet.
unfoldable pub apply_value : Block
apply_value m = push_goto (car_at m.heap m.r1) m.r1 m.r0 cell_vm_apply2 vm_eval m

unfoldable pub apply_special : Block
apply_special m =
    let h = m.heap in
    let c = car_at h m.r1 in
    let x = cadr_at h m.r1 in
    let y = caddr_at h m.r1 in
    if c == cell_vm_apply
    then (do call ← on_heap (cons x y); push_goto call m.r1 m.r0 cell_vm_return vm_apply) m
    else if c == cell_vm_eval
    then push_goto x m.r1 y cell_vm_return vm_eval m
    else if c == cell_vm_begin_expand
    then (do forms ← on_heap (cons x cell_nil); push_goto forms m.r1 y cell_vm_return begin_expand)
        m
    else (do _ ← on_heap (check_apply cell_f); apply_value) m

unfoldable pub apply_symbol : Block
apply_symbol m =
    let c = car_at m.heap m.r1 in
    if c == cell_symbol_call_with_current_continuation
    then set_r1 (cdr_at m.heap m.r1) call_with_current_continuation m
    else if c == cell_symbol_call_with_values
    then set_r1 (cdr_at m.heap m.r1) call_with_values m
    else if c == cell_symbol_current_environment
    then set_r1 m.r0 vm_return m
    else apply_value m

unfoldable pub apply_pair : Platform → Block
apply_pair p m =
    let h = m.heap in
    let f = car_at h m.r1 in
    let formals = cadr_at h f in
    let args = cdr_at h m.r1 in
    if car_at h f == cell_symbol_lambda
    then (do
      env ← on_heap (pairlis p.limits.rounds formals args m.r0)
      _ ← on_heap (check_formals p.limits m.r1 formals args)
      _ ← call_lambda (cddr_at h f) env
      goto vm_begin)
        m
    else apply_value m

-- `g_stack_array[g_stack + GC_FRAME_PROCEDURE] = R1->car`.
abbrev pub note_procedure : Machine → Machine
note_procedure m = record m {
  stack_array = update m.stack_array (m.stack + 4) (car_at m.heap m.r1);
}

unfoldable pub apply_block : Platform → Block
apply_block p m =
    let t = type_at m.heap (car_at m.heap m.r1) in
    (do
      builtin ← on_heap (builtin_p (car_at m.heap m.r1))
      λ m.
          if (t == t_struct) && builtin
          then apply_struct p m
          else if t == t_closure
          then apply_closure p m
          else if t == t_continuation
          then apply_continuation m
          else if t == t_special
          then apply_special m
          else if t == t_symbol
          then apply_symbol m
          else if t == t_pair
          then apply_pair p m
          else apply_value m)
      (note_procedure m)

unfoldable pub apply2_block : Block
apply2_block m =
    (do _ ← on_heap (check_apply m.r1); λ m. r1_from (cons m.r1 (cdr_at m.heap m.r2)) vm_apply m) m
