-- ===== src/Eval/Calls.antt =====
-- Calls in src/eval-apply.c, on the register machine.
use mes.Base.{ℕ, suc, ◌≤◌, ◌≡◌, refl, sym, ◌∙◌, true, false, arith, ◌==◌}
use mes.Eval.{Platform, Applier}
use mes.Eval.Apply.{evlis_block, evlis2_block, evlis3_block}
use mes.Eval.Expr.{eval_call, eval_form, eval_check_func_block, eval2_block}
use mes.Eval.Label.{
  evlis, evlis2, evlis3, vm_apply, vm_eval, eval_check_func, eval2, goto, push_goto,
}
use mes.Eval.Reaches.{Reaches-step, state, back, Returns-trans, Returns-here}
use mes.Eval.Runs.{Runs, Runs-return, Returns-push, Runs-push, gc_check-has_cells, Head-eval}
use mes.Eval.Semantics.{is_syntax, has_cells, Head}
use mes.Eval.Step.{label_of, step}
use mes.Gc.Drive.{gc_check}
use mes.Heap.{Heap, ok, and_then-ok, type_at, car_at, cdr_at}
use mes.Heap.Alloc.{cons}
use mes.Heap.Const.{t_pair, cell_nil}
use mes.Heap.Symbols.{cell_vm_eval2, cell_vm_eval_check_func, cell_vm_evlis2, cell_vm_evlis3}
use mes.Machine.{Machine, on_heap, on_heap-ok, push_cc}
use mes.Machine.Frame.{pushed, push_cc_ok}

form-call :
    (p : Platform) (applier : Applier) (m : Machine)
    → is_syntax (car_at m.heap m.r1) ≡ false
    → eval_form p applier m ≡ eval_call p m
unfolding eval_form
form-call p applier m syntax = ground (arith, syntax)

eval-call :
    (p : Platform) (g e : ℕ) {x : ℕ} {h h₁ : Heap} (m : Machine) (s : ℕ) (applier : Applier)
    → 5 ≤ s
    → Head x h h₁
    → is_syntax (car_at h₁ x) ≡ false
    → has_cells g h₁ ≡ true
    → step p applier vm_eval (state m s g e x h)
      ≡ push_goto (car_at h₁ x) x e cell_vm_eval_check_func vm_eval (state m s g e x h₁)
unfolding eval_call
eval-call p g e {x} {h₁ = h₁} m s applier room head syntax enough =
    let m₀ = state m s g e x h₁ in
    let c = car_at h₁ x in
    let pushes = push_cc_ok c x e cell_vm_eval_check_func m₀ room in
    Head-eval p applier m s g e head
    ∙ (form-call p applier m₀ syntax
        ∙ (and_then-ok (push_cc c x e cell_vm_eval_check_func) _ pushes
            ∙ (and_then-ok (gc_check p.realloc p.limits.rounds) _ (
                  gc_check-has_cells p.realloc p.limits.rounds
                    (pushed c x e cell_vm_eval_check_func m₀) enough)
                ∙ sym (
                    and_then-ok (push_cc c x e cell_vm_eval_check_func) (λ _. goto vm_eval)
                      pushes))))

module _ {p : Platform} {g e x : ℕ} {h : Heap} where
  pub call-Runs :
      {d f args c v : ℕ} {h₁ h₂ h₃ h₄ h' : Heap}
      → Head x h h₁
      → is_syntax (car_at h₁ x) ≡ false
      → has_cells g h₁ ≡ true
      → Runs p vm_eval g d e (car_at h₁ x) h₁ f h₂
      → Runs p evlis g d e (cdr_at h₂ x) h₂ args h₃
      → cons (car_at h₃ x) args h₃ ≡ ok c h₄
      → Runs p vm_apply g (suc d) e c h₄ v h'
      → Runs p vm_eval g (suc d) e x h v h'
  unfolding step eval_check_func_block eval2_block label_of
  call-Runs {f = f} {args} {h₂ = h₂} {h₃} head syntax enough operator rest made body =
      Runs-push vm_eval x cell_vm_eval_check_func refl refl
        (λ m s applier room. eval-call p g e m s applier room head syntax enough) operator
        (λ m s room.
          let m₁ = back m s g e f x cell_vm_eval_check_func h₂ in
          Returns-push eval_check_func m₁ m₁ cell_vm_eval2 s g e f refl refl (λ i le other. refl)
            (λ applier. refl) room rest
            (λ n.
              let m₂ = back n s g e args x cell_vm_eval2 h₃ in
              Returns-trans
                (Reaches-step eval2 refl (λ applier.
                  and_then-ok (on_heap (cons (car_at h₃ x) args)) _
                    (on_heap-ok (cons (car_at h₃ x) args) m₂ made)))
                (λ i le other. refl) (body.run m₂ s room)))

  pub no_operands-Runs : {d : ℕ} → (x == cell_nil) ≡ true → Runs p evlis g d e x h x h
  unfolding step evlis_block
  no_operands-Runs ended = Runs-return evlis refl (λ m s applier. rw ended)

  pub operands-Runs :
      {d w ws v : ℕ} {h₁ h₂ h' : Heap}
      → (x == cell_nil) ≡ false
      → type_at h x ≡ t_pair
      → Runs p vm_eval g d e (car_at h x) h w h₁
      → Runs p evlis g d e (cdr_at h₁ x) h₁ ws h₂
      → cons w ws h₂ ≡ ok v h'
      → Runs p evlis g (suc d) e x h v h'
  unfolding step evlis_block evlis2_block evlis3_block label_of
  operands-Runs {w = w} {ws} {v} {h₁} {h₂} {h'} more t first rest made =
      Runs-push evlis x cell_vm_evlis2 refl refl (λ m s applier room. rw (more, t)) first
        (λ m s room.
          let m₁ = back m s g e w x cell_vm_evlis2 h₁ in
          Returns-push evlis2 m₁ m₁ cell_vm_evlis3 s g e w refl refl (λ i le other. refl)
            (λ applier. refl) room rest
            (λ n.
              let m₂ = back n s g e ws w cell_vm_evlis3 h₂ in
              Returns-here evlis3 m₂ m₂ refl
                (λ applier. and_then-ok (on_heap (cons w ws)) _ (on_heap-ok (cons w ws) m₂ made))
                (λ i le other. refl)))
