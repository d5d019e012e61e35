-- ===== src/Eval/Sequences.antt =====
-- `begin` and its loop in src/eval-apply.c, on the register machine.
use mes.Base.{ℕ, suc, ◌≡◌, refl, ◌∙◌, true, false, ◌==◌}
use mes.Core.{append2}
use mes.Eval.{Platform, Applier}
use mes.Eval.Begin.{splice_begin, begin_form, begin_loop_block, begin_eval_block}
use mes.Eval.Label.{vm_eval, begin_eval, begin_loop}
use mes.Eval.Reaches.{Reaches-step, state, back, Returns-trans}
use mes.Eval.Runs.{Runs, Runs-step, Runs-return, Runs-push, gc_check-has_cells}
use mes.Eval.Semantics.{has_cells, Forms, forms_plain, forms_spliced}
use mes.Eval.Step.{label_of, step}
use mes.Gc.Drive.{gc_check}
use mes.Heap.{Heap, ok, and_then-ok, car_at, cdr_at}
use mes.Heap.Const.{cell_nil}
use mes.Heap.Symbols.{cell_vm_begin_eval}
use mes.Machine.{Machine, on_heap, on_heap-ok}
use mes.Modules.{Limits}

module _ {l : Limits} {g x : ℕ} {h : Heap} where
  splice-Forms :
      {y : ℕ} {h₁ : Heap} (m : Machine) (s e : ℕ)
      → Forms l g x h y h₁
      → splice_begin l (state m s g e x h) ≡ ok tt (state m s g e y h₁)
  unfolding splice_begin
  splice-Forms m s e (forms_plain some_left enough begins) = rw begins
  splice-Forms m s e (forms_spliced some_left enough begins appended) =
      let f = append2 l.rounds (cdr_at h (car_at h x)) (cdr_at h x) in
      rw begins (and_then-ok (on_heap f) _ (on_heap-ok f (state m s g e x h) appended))

  Forms-nil : {y : ℕ} {h₁ : Heap} → Forms l g x h y h₁ → (x == cell_nil) ≡ false
  Forms-nil (forms_plain some_left enough begins) = some_left
  Forms-nil (forms_spliced some_left enough begins appended) = some_left

  Forms-has_cells : {y : ℕ} {h₁ : Heap} → Forms l g x h y h₁ → has_cells g h ≡ true
  Forms-has_cells (forms_plain some_left enough begins) = enough
  Forms-has_cells (forms_spliced some_left enough begins appended) = enough

loop-Forms :
    (p : Platform) {g x y : ℕ} {h h₁ : Heap} (w : ℕ) (m : Machine) (s e : ℕ) (applier : Applier)
    → Forms p.limits g x h y h₁
    → step p applier (begin_loop w) (state m s g e x h) ≡ begin_form (state m s g e y h₁)
unfolding step begin_loop_block
loop-Forms p {g} {x} {h = h} w m s e applier forms = rw (Forms-nil forms) (
    and_then-ok (gc_check p.realloc p.limits.rounds) _
      (gc_check-has_cells p.realloc p.limits.rounds (state m s g e x h) (Forms-has_cells forms))
    ∙ and_then-ok (splice_begin p.limits) _ (splice-Forms m s e forms))

module _ {p : Platform} {g e x : ℕ} {h : Heap} where
  pub ended-Runs : {d w : ℕ} → (x == cell_nil) ≡ true → Runs p (begin_loop w) g d e x h w h
  unfolding step begin_loop_block
  ended-Runs {w = w} ended = Runs-return (begin_loop w) refl (λ m s applier. rw ended)

  pub last-Runs :
      {d w y v : ℕ} {h₁ h' : Heap}
      → Forms p.limits g x h y h₁
      → (cdr_at h₁ y == cell_nil) ≡ true
      → Runs p vm_eval g d e (car_at h₁ y) h₁ v h'
      → Runs p (begin_loop w) g d e x h v h'
  unfolding begin_form
  last-Runs {w = w} forms last form =
      Runs-step (begin_loop w) refl (λ m s applier. loop-Forms p w m s e applier forms ∙ rw last)
        form

  pub next-Runs :
      {d w y w' v : ℕ} {h₁ h₂ h' : Heap}
      → Forms p.limits g x h y h₁
      → (cdr_at h₁ y == cell_nil) ≡ false
      → Runs p vm_eval g d e (car_at h₁ y) h₁ w' h₂
      → Runs p (begin_loop w') g (suc d) e (cdr_at h₂ y) h₂ v h'
      → Runs p (begin_loop w) g (suc d) e x h v h'
  unfolding begin_form step begin_eval_block label_of
  next-Runs {w = w} {y} {w'} {h₂ = h₂} forms more form rest =
      Runs-push (begin_loop w) y cell_vm_begin_eval refl refl
        (λ m s applier room. loop-Forms p w m s e applier forms ∙ rw more) form
        (λ m s room.
          Returns-trans (Reaches-step begin_eval refl (λ applier. refl)) (λ i le other. refl)
            (rest.run (back m s g e w' y cell_vm_begin_eval h₂) s room))
