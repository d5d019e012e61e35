-- ===== src/Eval/Applications.antt =====
-- The application of closures and of operators that are expressions, in src/eval-apply.c, on the
-- register machine.
use mes.Base.{ℕ, suc, ◌+◌, ◌≡◌, refl, ◌∙◌, false, arith, ◌==◌}
use mes.Eval.{Platform, Applier, check_formals, builtin_p, check_apply, pairlis, call_lambda}
use mes.Eval.Apply.{apply_closure, apply_value, apply_pair, apply_block, apply2_block}
use mes.Eval.Label.{vm_apply, apply2, vm_eval, vm_begin, begin_loop, cadr_at, cddr_at}
use mes.Eval.Reaches.{Reaches-step, state, SameBut, back, Returns-trans}
use mes.Eval.Runs.{Runs, Returns-push}
use mes.Eval.Step.{label_of, step}
use mes.Heap.{Heap, ok, and_then-ok, type_at, car_at, cdr_at, update}
use mes.Heap.Alloc.{cons}
use mes.Heap.Const.{t_closure, t_pair, t_struct, cell_unspecified, cell_closure}
use mes.Heap.Symbols.{cell_vm_apply2, cell_symbol_lambda}
use mes.Machine.{Machine, on_heap, on_heap-ok}

-- The machine at `apply`, once the procedure is noted in the frame.
abbrev noted : Machine → ℕ → ℕ → Heap → Machine
noted m s x h = record m { stack_array = update m.stack_array (s + 4) (car_at h x) }

noted-SameBut : (m : Machine) (s x : ℕ) (h : Heap) → SameBut s m (noted m s x h)
noted-SameBut m s x h i le other = ground arith

not-builtin :
    (f : ℕ) (m : Machine)
    → (type_at m.heap f == t_struct) ≡ false
    → on_heap (builtin_p f) m ≡ ok false m
unfolding builtin_p
not-builtin f m t = on_heap-ok (builtin_p f) m (rw t)

call_lambda-ok :
    (body env : ℕ) {c e' : ℕ} (m : Machine) {h₁ h₂ : Heap}
    → cons cell_closure env m.heap ≡ ok c h₁
    → cons c env h₁ ≡ ok e' h₂
    → call_lambda body env m ≡ ok cell_unspecified (record m { heap = h₂; r1 = body; r0 = e' })
unfolding call_lambda
call_lambda-ok body env {c} m {h₁} made made' =
    and_then-ok (on_heap (cons cell_closure env)) _ (on_heap-ok (cons cell_closure env) m made)
    ∙ and_then-ok (on_heap (cons c env)) _ (on_heap-ok (cons c env) (record m { heap = h₁ }) made')

apply-closure :
    (p : Platform) (applier : Applier) (g e x : ℕ) {u a c e' : ℕ} (h : Heap) {h₁ h₂ h₃ h₄ : Heap}
    (m : Machine) (s : ℕ)
    → type_at h (car_at h x) ≡ t_closure
    → check_formals p.limits (car_at h x) (cadr_at h (cdr_at h (car_at h x))) (cdr_at h x) h
      ≡ ok u h₁
    → pairlis p.limits.rounds
        (cadr_at h (cdr_at h (car_at h x)))
        (cdr_at h x)
        (cddr_at h (car_at h (cdr_at h (car_at h x))))
        h₁
      ≡ ok a h₂
    → cons cell_closure a h₂ ≡ ok c h₃
    → cons c a h₃ ≡ ok e' h₄
    → step p applier vm_apply (state m s g e x h)
      ≡ ok vm_begin (state (noted m s x h) s g e' (cddr_at h (cdr_at h (car_at h x))) h₄)
unfolding step apply_block apply_closure
apply-closure p applier g e x {a = a} {c} h {h₁} {h₂} m s t fits paired made made' =
    let m₀ = state (noted m s x h) s g e x h in
    let cl = cdr_at h (car_at h x) in
    let check = check_formals p.limits (car_at h x) (cadr_at h cl) (cdr_at h x) in
    let pair = pairlis p.limits.rounds (cadr_at h cl) (cdr_at h x) (cddr_at h (car_at h cl)) in
    and_then-ok (on_heap (builtin_p (car_at h x))) _ (not-builtin (car_at h x) m₀ (rw t))
    ∙ rw t (
        and_then-ok (on_heap check) _ (on_heap-ok check m₀ fits)
        ∙ (and_then-ok (on_heap pair) _ (on_heap-ok pair (record m₀ { heap = h₁ }) paired)
            ∙ and_then-ok (call_lambda (cddr_at h cl) a) _
                (call_lambda-ok (cddr_at h cl) a (record m₀ { heap = h₂ }) made made')))

apply-lambda :
    (p : Platform) (applier : Applier) (g e x : ℕ) {u a c e' : ℕ} (h : Heap) {h₁ h₂ h₃ h₄ : Heap}
    (m : Machine) (s : ℕ)
    → type_at h (car_at h x) ≡ t_pair
    → car_at h (car_at h x) ≡ cell_symbol_lambda
    → pairlis p.limits.rounds (cadr_at h (car_at h x)) (cdr_at h x) e h ≡ ok a h₁
    → check_formals p.limits x (cadr_at h (car_at h x)) (cdr_at h x) h₁ ≡ ok u h₂
    → cons cell_closure a h₂ ≡ ok c h₃
    → cons c a h₃ ≡ ok e' h₄
    → step p applier vm_apply (state m s g e x h)
      ≡ ok vm_begin (state (noted m s x h) s g e' (cddr_at h (car_at h x)) h₄)
unfolding step apply_block apply_pair
apply-lambda p applier g e x {a = a} {c} h {h₁} {h₂} m s t head paired fits made made' =
    let m₀ = state (noted m s x h) s g e x h in
    let check = check_formals p.limits x (cadr_at h (car_at h x)) (cdr_at h x) in
    let pair = pairlis p.limits.rounds (cadr_at h (car_at h x)) (cdr_at h x) e in
    and_then-ok (on_heap (builtin_p (car_at h x))) _ (not-builtin (car_at h x) m₀ (rw t))
    ∙ rw (t, head)
        (and_then-ok (on_heap pair) _ (on_heap-ok pair m₀ paired)
          ∙ (and_then-ok (on_heap check) _ (on_heap-ok check (record m₀ { heap = h₁ }) fits)
              ∙ and_then-ok (call_lambda (cddr_at h (car_at h x)) a) _
                  (call_lambda-ok (cddr_at h (car_at h x)) a (record m₀ { heap = h₂ }) made made')))

module _ {p : Platform} {g e x : ℕ} {h : Heap} where
  -- A body that runs in the environment that a block has made.
  body-Runs :
      {d e' body v : ℕ} {h₁ h' : Heap}
      → ((m : Machine) (s : ℕ) (applier : Applier)
          → step p applier vm_apply (state m s g e x h)
            ≡ ok vm_begin (state (noted m s x h) s g e' body h₁))
      → Runs p (begin_loop cell_unspecified) g d e' body h₁ v h'
      → Runs p vm_apply g d e x h v h'
  unfolding step
  body-Runs block body = record {
    run = λ m s room.
        Returns-trans (Reaches-step vm_apply refl (block m s)) (noted-SameBut m s x h) (
          Returns-trans (Reaches-step vm_begin refl (λ applier. refl)) (λ i le other. refl)
            (body.run (noted m s x h) s room));
  }

  pub immediate-Runs :
      {d u a c e' v : ℕ} {h₁ h₂ h₃ h₄ h' : Heap}
      → type_at h (car_at h x) ≡ t_pair
      → car_at h (car_at h x) ≡ cell_symbol_lambda
      → pairlis p.limits.rounds (cadr_at h (car_at h x)) (cdr_at h x) e h ≡ ok a h₁
      → check_formals p.limits x (cadr_at h (car_at h x)) (cdr_at h x) h₁ ≡ ok u h₂
      → cons cell_closure a h₂ ≡ ok c h₃
      → cons c a h₃ ≡ ok e' h₄
      → Runs p (begin_loop cell_unspecified) g d e' (cddr_at h (car_at h x)) h₄ v h'
      → Runs p vm_apply g d e x h v h'
  immediate-Runs t head paired fits made made' =
      body-Runs (λ m s applier. apply-lambda p applier g e x h m s t head paired fits made made')

  pub closure-Runs :
      {d u a c e' v : ℕ} {h₁ h₂ h₃ h₄ h' : Heap}
      → type_at h (car_at h x) ≡ t_closure
      → check_formals p.limits (car_at h x) (cadr_at h (cdr_at h (car_at h x))) (cdr_at h x) h
        ≡ ok u h₁
      → pairlis p.limits.rounds
          (cadr_at h (cdr_at h (car_at h x)))
          (cdr_at h x)
          (cddr_at h (car_at h (cdr_at h (car_at h x))))
          h₁
        ≡ ok a h₂
      → cons cell_closure a h₂ ≡ ok c h₃
      → cons c a h₃ ≡ ok e' h₄
      → Runs p (begin_loop cell_unspecified) g d e' (cddr_at h (cdr_at h (car_at h x))) h₄ v h'
      → Runs p vm_apply g d e x h v h'
  closure-Runs t fits paired made made' =
      body-Runs (λ m s applier. apply-closure p applier g e x h m s t fits paired made made')

  pub operator-Runs :
      {d w u c v : ℕ} {h₁ h₂ h₃ h' : Heap}
      → type_at h (car_at h x) ≡ t_pair
      → (car_at h (car_at h x) == cell_symbol_lambda) ≡ false
      → Runs p vm_eval g d e (car_at h x) h w h₁
      → check_apply w h₁ ≡ ok u h₂
      → cons w (cdr_at h₂ x) h₂ ≡ ok c h₃
      → Runs p vm_apply g (suc d) e c h₃ v h'
      → Runs p vm_apply g (suc d) e x h v h'
  unfolding step apply_block apply_pair apply_value apply2_block label_of
  operator-Runs {w = w} {h₁ = h₁} {h₂} t head operator fits made body = record {
    run = λ m s room.
        Returns-push vm_apply (state m s g e x h) (noted m s x h) cell_vm_apply2 s g e x refl refl
          (noted-SameBut m s x h)
          (λ applier.
            and_then-ok (on_heap (builtin_p (car_at h x))) _
              (not-builtin (car_at h x) (state (noted m s x h) s g e x h) (rw t))
            ∙ rw (t, head))
          room operator
          (λ n.
            let m₁ = back n s g e w x cell_vm_apply2 h₁ in
            Returns-trans
              (Reaches-step apply2 refl (λ applier.
                and_then-ok (on_heap (check_apply w)) _ (on_heap-ok (check_apply w) m₁ fits)
                ∙ and_then-ok (on_heap (cons w (cdr_at h₂ x))) _
                    (on_heap-ok (cons w (cdr_at h₂ x)) (record m₁ { heap = h₂ }) made)))
              (λ i le other. refl) (body.run m₁ s room));
  }
