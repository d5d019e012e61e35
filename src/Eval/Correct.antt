-- ===== src/Eval/Correct.antt =====
-- The register machine of src/eval-apply.c computes what the expressions of the core language mean.
use mes.Base.{ℕ, suc, ◌+◌, ◌-◌, ◌*◌, ◌≤◌, ◌≡◌, refl, ap, ◌∙◌, inr, arith}
use mes.Eval.{Platform}
use mes.Eval.Applications.{immediate-Runs, closure-Runs, operator-Runs}
use mes.Eval.Calls.{call-Runs, no_operands-Runs, operands-Runs}
use mes.Eval.Forms.{
  constant-Runs, keyword-Runs, variable-Runs, symbol-Runs, quote-Runs, lambda-Runs, begin-Runs,
  if_true-Runs, if_false-Runs, if_only-Runs, set-Runs,
}
use mes.Eval.Label.{Label, dispatch, evlis, vm_apply, vm_eval, begin_loop, returned}
use mes.Eval.Reaches.{Reaches, Reaches-trans, Reaches-step, SameBut, Returns, back, return_to}
use mes.Eval.Runs.{Runs}
use mes.Eval.Semantics.{
  Task, value_of, operands_of, call_of, sequence_of, Evaluates, constant_rule, keyword_rule,
  variable_rule, symbol_rule, quote_rule, lambda_rule, begin_rule, if_true_rule, if_false_rule,
  if_only_rule, set_rule, call_rule, closure_rule, immediate_rule, operator_rule, no_operands_rule,
  operands_rule, ended_rule, last_rule, next_rule,
}
use mes.Eval.Sequences.{ended-Runs, last-Runs, next-Runs}
use mes.Eval.Step.{label_of, dispatch_block, step, run_from, eval_apply, apply}
use mes.Heap.{Heap, ok, and_then-ok}
use mes.Heap.Alloc.{cons}
use mes.Heap.Const.{cell_unspecified}
use mes.Heap.Symbols.{cell_vm_apply}
use mes.Machine.{Machine, on_heap, on_heap-ok, push_cc}
use mes.Machine.Frame.{pushed, push_cc_ok}

-- The label at which a task starts.
abbrev pub label_of_task : Task → Label
label_of_task value_of = vm_eval
label_of_task operands_of = evlis
label_of_task call_of = vm_apply
label_of_task (sequence_of w) = begin_loop w

Evaluates-Runs :
    (p : Platform) {g d : ℕ} {t : Task} {e x v : ℕ} {h h' : Heap}
    → Evaluates p.limits g d t e x h v h'
    → Runs p (label_of_task t) g d e x h v h'
Evaluates-Runs p (constant_rule c) = constant-Runs c
Evaluates-Runs p (keyword_rule t k) = keyword-Runs t k
Evaluates-Runs p (variable_rule t found defined) = variable-Runs t found defined
Evaluates-Runs p (symbol_rule t name found some_handle made some_binding value defined) =
    symbol-Runs t name found some_handle made some_binding value defined
Evaluates-Runs p (quote_rule head c) = quote-Runs head c
Evaluates-Runs p (lambda_rule head c made) = lambda-Runs head c made
Evaluates-Runs p (begin_rule head c forms) = begin-Runs head c (Evaluates-Runs p forms)
Evaluates-Runs p (if_true_rule head c test holds branch) =
    if_true-Runs head c (Evaluates-Runs p test) holds (Evaluates-Runs p branch)
Evaluates-Runs p (if_false_rule head c test more branch) =
    if_false-Runs head c (Evaluates-Runs p test) more (Evaluates-Runs p branch)
Evaluates-Runs p (if_only_rule head c test none_left) =
    if_only-Runs head c (Evaluates-Runs p test) none_left
Evaluates-Runs p (set_rule head c value t assigned) =
    set-Runs head c (Evaluates-Runs p value) t assigned
Evaluates-Runs p (call_rule head syntax enough operator rest made body) =
    call-Runs head syntax enough (Evaluates-Runs p operator) (Evaluates-Runs p rest) made
      (Evaluates-Runs p body)
Evaluates-Runs p (closure_rule t fits paired made made' body) =
    closure-Runs t fits paired made made' (Evaluates-Runs p body)
Evaluates-Runs p (immediate_rule t head paired fits made made' body) =
    immediate-Runs t head paired fits made made' (Evaluates-Runs p body)
Evaluates-Runs p (operator_rule t head operator fits made body) =
    operator-Runs t head (Evaluates-Runs p operator) fits made (Evaluates-Runs p body)
Evaluates-Runs p (no_operands_rule ended) = no_operands-Runs ended
Evaluates-Runs p (operands_rule more t first rest made) =
    operands-Runs more t (Evaluates-Runs p first) (Evaluates-Runs p rest) made
Evaluates-Runs p (ended_rule ended) = ended-Runs ended
Evaluates-Runs p (last_rule forms last form) = last-Runs forms last (Evaluates-Runs p form)
Evaluates-Runs p (next_rule forms more form rest) =
    next-Runs forms more (Evaluates-Runs p form) (Evaluates-Runs p rest)

-- The register machine implements the meaning of the core language. When the expression in `R1` has,
-- in the environment of `R0` and in the heap, the value `v` with the heap `h'` by the rules of
-- `Evaluates`, with at most `d` frames on a stack that has room for them, then the machine at the
-- label `eval` comes, in some number of steps, to its return with `v` in `R1`, with the heap `h'`
-- and the stack index from before, and the slots from there on are what they were, but for the one
-- that notes the procedure of the frame. No collection is due on the way. The rules follow the
-- machine in that the operator of a call is evaluated once before the operands, with its value
-- dropped, and, when it is a pair and no lambda, a second time afterwards.
pub vm_eval-Evaluates :
    (p : Platform) (m : Machine) {d v : ℕ} {h' : Heap}
    → Evaluates p.limits m.gc_safety d value_of m.r0 m.r1 m.heap v h'
    → 5 * d ≤ m.stack
    → Returns p vm_eval m m.stack m.gc_safety v h'
vm_eval-Evaluates p m value room = (Evaluates-Runs p value).run m m.stack room

returns_last :
    {p : Platform} {l : Label} {m n : Machine} (r : Reaches p l m returned n) (k : ℕ)
    → run_from (r.steps + 1 + k) p l m ≡ ok n.r1 n
unfolding run_from
returns_last {p} {l} {m} {n} r k =
    let e : r.steps + 1 + k ≡ r.steps + suc k = omega arith in
    ap (λ q. run_from q p l m) e ∙ r.runs (suc k)

-- The machine from `apply` on: the frame whose continuation ends the run.
apply-Returns :
    (p : Platform) (m : Machine) (a c v : ℕ) {h' : Heap}
    → 5 ≤ m.stack
    → Returns p vm_apply
        (record (pushed c cell_unspecified a cell_unspecified m) { r3 = cell_vm_apply })
        (m.stack - 5)
        m.gc_safety
        v
        h'
    → (n : Machine) × (j : ℕ) × ((k : ℕ)
        → eval_apply
            (j + k)
            p
            (record (pushed c cell_unspecified a cell_unspecified m) { r3 = cell_vm_apply })
          ≡ ok v n)
      × ((n.heap ≡ h') × (n.stack ≡ m.stack) × (n.r0 ≡ m.r0))
      × SameBut m.stack m n
unfolding eval_apply step dispatch_block label_of
apply-Returns p m a c v {h'} room ret =
    let m₁ = record (pushed c cell_unspecified a cell_unspecified m) { r3 = cell_vm_apply } in
    let n = ret.last in
    let s = m.stack in
    let ended =
      return_to p c cell_unspecified a cell_unspecified {l = returned} m n s m.gc_safety m.r0 m.r1 v
        m.heap h' room refl ret.same in
    let all =
      Reaches-trans
        (Reaches-trans
          (Reaches-step dispatch {l' = vm_apply} {m = m₁} {m' = m₁} refl (λ applier. refl))
          ret.reached)
        ended in
    (
      back n s m.gc_safety m.r0 v cell_unspecified cell_unspecified h',
      all.steps + 1,
      (λ k. returns_last all k),
      (refl, refl, refl),
      (λ i le other. ret.same i (omega arith) (inr (omega arith)) ∙ ground arith),
    )

-- `apply` of a procedure returns what the call means. When the pair of the procedure `f` and its
-- arguments `x` is made, and the call of that pair in the environment `a` has the value `v` with
-- the heap `h'` by the rules of `Evaluates`, with at most `d` frames, and the stack has room for
-- these and one more, then `apply` returns `v` for every fuel from some number on, with the heap
-- `h'`, the stack index and the `R0` from before, and the slots from there on are what they were,
-- but for the one that notes the procedure of the frame.
pub apply-Evaluates :
    (p : Platform) (f x a : ℕ) (m : Machine) {d c v : ℕ} {h₁ h' : Heap}
    → cons f x m.heap ≡ ok c h₁
    → Evaluates p.limits m.gc_safety d call_of a c h₁ v h'
    → 5 * suc d ≤ m.stack
    → (n : Machine) × (j : ℕ) × ((k : ℕ) → apply (j + k) p f x a m ≡ ok v n)
      × ((n.heap ≡ h') × (n.stack ≡ m.stack) × (n.r0 ≡ m.r0))
      × SameBut m.stack m n
unfolding apply
apply-Evaluates p f x a m {c = c} {h₁ = h₁} made call room =
    let m₀ = record m { heap = h₁ } in
    let m₁ = record (pushed c cell_unspecified a cell_unspecified m₀) { r3 = cell_vm_apply } in
    let (n, j, runs, ends, same) =
      apply-Returns p m₀ a c _ (omega arith)
        ((Evaluates-Runs p call).run m₁ (m.stack - 5) (omega arith)) in
    (
      n,
      j,
      (λ k.
          and_then-ok (on_heap (cons f x)) _ (on_heap-ok (cons f x) m made)
          ∙ (and_then-ok (push_cc c cell_unspecified a cell_unspecified) _
                (push_cc_ok c cell_unspecified a cell_unspecified m₀ (omega arith))
              ∙ runs k)),
      ends,
      same,
    )
