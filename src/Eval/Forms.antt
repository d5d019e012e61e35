-- ===== src/Eval/Forms.antt =====
-- The forms of src/eval-apply.c that are neither calls nor sequences, on the register machine.
use mes.Base.{ℕ, suc, ◌*◌, ◌≤◌, ◌≡◌, refl, ◌∙◌, true, false, arith, ◌==◌}
use mes.Core.{assq}
use mes.Eval.{
  Platform, Applier, assert_defined, make_binding_, make_closure_, lookup_binding, binding_value,
  lookup_value, set_binding, set_x,
}
use mes.Eval.Control.{vm_if_block, if_expr_block}
use mes.Eval.Expr.{eval_form, eval_symbol, eval_binding, eval_block, eval_set_x_block}
use mes.Eval.Label.{
  vm_eval, eval_set_x, vm_begin, begin_loop, vm_if, if_expr, cadr_at, cddr_at, caddr_at,
}
use mes.Eval.Reaches.{Reaches-step, state, Returns, back, Returns-trans, Returns-here}
use mes.Eval.Runs.{Runs, Runs-step, Runs-return, Runs-push, Head-eval}
use mes.Eval.Semantics.{is_constant, is_keyword, Head}
use mes.Eval.Step.{label_of, step}
use mes.Heap.{Heap, ok, and_then-ok, type_at, car_at, cdr_at}
use mes.Heap.Const.{t_symbol, t_binding, cell_nil, cell_f, cell_undefined, cell_unspecified}
use mes.Heap.Symbols.{
  cell_vm_eval_set_x, cell_vm_if_expr, cell_symbol_lambda, cell_symbol_begin, cell_symbol_if,
  cell_symbol_quote, cell_symbol_set_x,
}
use mes.Machine.{Machine, on_heap, on_heap-ok}
use mes.Modules.{Limits}

-- A name of the lexical environment is found there.
lexical_binding :
    (applier : Applier) (l : Limits) (e x : ℕ) (m : Machine) {handle b : ℕ} {h₁ h₂ : Heap}
    → assq l.rounds x m.r0 m.heap ≡ ok handle h₁
    → (handle == cell_f) ≡ false
    → make_binding_ handle 1 h₁ ≡ ok b h₂
    → lookup_binding applier l x cell_f m ≡ ok b (record m { heap = h₂ })
unfolding lookup_binding
lexical_binding applier l e x m {handle} {h₁ = h₁} found some_handle made =
    and_then-ok (on_heap (assq l.rounds x m.r0)) _ (on_heap-ok (assq l.rounds x m.r0) m found)
    ∙ rw some_handle (on_heap-ok (make_binding_ handle 1) (record m { heap = h₁ }) made)

lexical_lookup :
    (applier : Applier) (l : Limits) (e x : ℕ) (m : Machine) {handle b v : ℕ} {h₁ h₂ h' : Heap}
    → assq l.rounds x m.r0 m.heap ≡ ok handle h₁
    → (handle == cell_f) ≡ false
    → make_binding_ handle 1 h₁ ≡ ok b h₂
    → (b == cell_f) ≡ false
    → binding_value b h₂ ≡ ok v h'
    → lookup_value applier l x m ≡ ok v (record m { heap = h' })
unfolding lookup_value
lexical_lookup applier l e x m {b = b} {h₂ = h₂} found some_handle made some_binding value =
    and_then-ok (lookup_binding applier l x cell_f) _
      (lexical_binding applier l e x m found some_handle made)
    ∙ rw some_binding (on_heap-ok (binding_value b) (record m { heap = h₂ }) value)

module _ {p : Platform} {g d e x : ℕ} {h : Heap} where
  pub constant-Runs : is_constant h x ≡ true → Runs p vm_eval g d e x h x h
  unfolding step eval_block
  constant-Runs c = Runs-return vm_eval refl (λ m s applier. ground (arith, c))

  pub keyword-Runs : type_at h x ≡ t_symbol → is_keyword x ≡ true → Runs p vm_eval g d e x h x h
  unfolding step eval_block eval_symbol
  keyword-Runs t k = Runs-return vm_eval refl (λ m s applier. rw (t, k))

  pub variable-Runs :
      {v : ℕ} {h' : Heap}
      → type_at h x ≡ t_binding
      → binding_value x h ≡ ok v h'
      → (v == cell_undefined) ≡ false
      → Runs p vm_eval g d e x h v h'
  unfolding step eval_block eval_binding
  variable-Runs t found defined = Runs-return vm_eval refl (λ m s applier. rw t (
      and_then-ok (on_heap (binding_value x)) _
        (on_heap-ok (binding_value x) (state m s g e x h) found)
      ∙ rw defined))

  pub symbol-Runs :
      {handle b v : ℕ} {h₁ h₂ h' : Heap}
      → type_at h x ≡ t_symbol
      → is_keyword x ≡ false
      → assq p.limits.rounds x e h ≡ ok handle h₁
      → (handle == cell_f) ≡ false
      → make_binding_ handle 1 h₁ ≡ ok b h₂
      → (b == cell_f) ≡ false
      → binding_value b h₂ ≡ ok v h'
      → (v == cell_undefined) ≡ false
      → Runs p vm_eval g d e x h v h'
  unfolding step eval_block eval_symbol assert_defined
  symbol-Runs {handle} {b} {v} {h₁} {h₂} t name found some_handle made some_binding value defined =
      Runs-return vm_eval refl (λ m s applier.
        rw (t, name)
          (and_then-ok (lookup_value applier p.limits x) _ (
              lexical_lookup applier p.limits e x (state m s g e x h) found some_handle made
                some_binding value)
            ∙ rw defined))

  pub quote-Runs :
      {h₁ : Heap}
      → Head x h h₁
      → car_at h₁ x ≡ cell_symbol_quote
      → Runs p vm_eval g d e x h (cadr_at h₁ x) h₁
  unfolding step eval_form
  quote-Runs head c =
      Runs-return vm_eval refl (λ m s applier. Head-eval p applier m s g e head ∙ rw c)

  pub lambda-Runs :
      {v : ℕ} {h₁ h' : Heap}
      → Head x h h₁
      → car_at h₁ x ≡ cell_symbol_lambda
      → make_closure_ (cadr_at h₁ x) (cddr_at h₁ x) e h₁ ≡ ok v h'
      → Runs p vm_eval g d e x h v h'
  unfolding step eval_form
  lambda-Runs {v} {h₁} head c made = Runs-return vm_eval refl (λ m s applier.
      Head-eval p applier m s g e head
      ∙ rw c (
          and_then-ok (on_heap (make_closure_ (cadr_at h₁ x) (cddr_at h₁ x) e)) _
            (on_heap-ok (make_closure_ (cadr_at h₁ x) (cddr_at h₁ x) e) (state m s g e x h₁) made)))

  pub begin-Runs :
      {v : ℕ} {h₁ h' : Heap}
      → Head x h h₁
      → car_at h₁ x ≡ cell_symbol_begin
      → Runs p (begin_loop cell_unspecified) g d e x h₁ v h'
      → Runs p vm_eval g d e x h v h'
  unfolding step eval_form
  begin-Runs head c rest =
      Runs-step vm_eval refl (λ m s applier. Head-eval p applier m s g e head ∙ rw c)
        (Runs-step vm_begin refl (λ m s applier. refl) rest)

  -- The test of an `if`, and what is done with its value `t`.
  if-Runs :
      {t v : ℕ} {h₁ h₂ h' : Heap}
      → Head x h h₁
      → car_at h₁ x ≡ cell_symbol_if
      → Runs p vm_eval g d e (cadr_at h₁ x) h₁ t h₂
      → ((m : Machine) (s : ℕ)
          → 5 * suc d ≤ s
          → Returns p if_expr (back m s g e t (cdr_at h₁ x) cell_vm_if_expr h₂) s g v h')
      → Runs p vm_eval g (suc d) e x h v h'
  unfolding step eval_form vm_if_block label_of
  if-Runs {h₁ = h₁} head c test rest =
      Runs-step vm_eval refl (λ m s applier. Head-eval p applier m s g e head ∙ rw c)
        (Runs-push vm_if (cdr_at h₁ x) cell_vm_if_expr refl refl (λ m s applier room. refl) test
          rest)

  pub if_true-Runs :
      {t v : ℕ} {h₁ h₂ h' : Heap}
      → Head x h h₁
      → car_at h₁ x ≡ cell_symbol_if
      → Runs p vm_eval g d e (cadr_at h₁ x) h₁ t h₂
      → (t == cell_f) ≡ false
      → Runs p vm_eval g (suc d) e (cadr_at h₂ (cdr_at h₁ x)) h₂ v h'
      → Runs p vm_eval g (suc d) e x h v h'
  unfolding step if_expr_block
  if_true-Runs {t} {h₁ = h₁} {h₂} head c test holds branch = if-Runs head c test (λ m s room.
      let m' = back m s g e t (cdr_at h₁ x) cell_vm_if_expr h₂ in
      Returns-trans (Reaches-step if_expr refl (λ applier. rw holds)) (λ i le other. refl)
        (branch.run m' s room))

  pub if_false-Runs :
      {v : ℕ} {h₁ h₂ h' : Heap}
      → Head x h h₁
      → car_at h₁ x ≡ cell_symbol_if
      → Runs p vm_eval g d e (cadr_at h₁ x) h₁ cell_f h₂
      → (cddr_at h₂ (cdr_at h₁ x) == cell_nil) ≡ false
      → Runs p vm_eval g (suc d) e (caddr_at h₂ (cdr_at h₁ x)) h₂ v h'
      → Runs p vm_eval g (suc d) e x h v h'
  unfolding step if_expr_block
  if_false-Runs {h₁ = h₁} {h₂} head c test more branch = if-Runs head c test (λ m s room.
      let m' = back m s g e cell_f (cdr_at h₁ x) cell_vm_if_expr h₂ in
      Returns-trans (Reaches-step if_expr refl (λ applier. rw more)) (λ i le other. refl)
        (branch.run m' s room))

  pub if_only-Runs :
      {h₁ h₂ : Heap}
      → Head x h h₁
      → car_at h₁ x ≡ cell_symbol_if
      → Runs p vm_eval g d e (cadr_at h₁ x) h₁ cell_f h₂
      → cddr_at h₂ (cdr_at h₁ x) ≡ cell_nil
      → Runs p vm_eval g (suc d) e x h cell_unspecified h₂
  unfolding step if_expr_block
  if_only-Runs {h₁} {h₂} head c test none' = if-Runs head c test (λ m s room.
      let m' = back m s g e cell_f (cdr_at h₁ x) cell_vm_if_expr h₂ in
      Returns-here if_expr m' m' refl (λ applier. rw none') (λ i le other. refl))

  pub set-Runs :
      {v u : ℕ} {h₁ h₂ h' : Heap}
      → Head x h h₁
      → car_at h₁ x ≡ cell_symbol_set_x
      → Runs p vm_eval g d e (caddr_at h₁ x) h₁ v h₂
      → type_at h₂ (cadr_at h₂ x) ≡ t_binding
      → set_binding (cadr_at h₂ x) (cadr_at h₂ x) v 0 h₂ ≡ ok u h'
      → Runs p vm_eval g (suc d) e x h u h'
  unfolding step eval_form eval_set_x_block set_x label_of
  set-Runs {v} {u} {h₁} {h₂} head c value t assigned =
      Runs-push vm_eval x cell_vm_eval_set_x refl refl
        (λ m s applier room. Head-eval p applier m s g e head ∙ rw c) value
        (λ m s room.
          let m' = back m s g e v x cell_vm_eval_set_x h₂ in
          let f = set_binding (cadr_at h₂ x) (cadr_at h₂ x) v 0 in
          Returns-here eval_set_x m' m' refl
            (λ applier. rw t (and_then-ok (on_heap f) _ (on_heap-ok f m' assigned)))
            (λ i le other. refl))
