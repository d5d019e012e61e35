-- ===== src/Eval/Runs.antt =====
-- Runs of the register machine of src/eval-apply.c that return, and the blocks that they go through.
use mes.Base.{ℕ, suc, ◌+◌, ◌-◌, ◌*◌, ◌≤◌, ◌≡◌, refl, ◌∙◌, true, false, some, arith, leb}
use mes.Eval.{Platform, Applier, binding_value}
use mes.Eval.Expr.{resolve_head, eval_form, eval_block}
use mes.Eval.Label.{Label, vm_eval, vm_return, push_goto}
use mes.Eval.Reaches.{
  Reaches-step, state, SameBut, Returns, back, Reaches-back, Returns-trans, Returns-here,
}
use mes.Eval.Semantics.{has_cells, Head, head_plain, head_bound}
use mes.Eval.Step.{label_of, step, is_returned}
use mes.Gc.Drive.{gc_check}
use mes.Heap.{Heap, ok, and_then-ok, type_at, car_at}
use mes.Heap.Const.{t_pair, cell_unspecified}
use mes.Machine.{Machine, on_heap, on_heap-ok}
use mes.Machine.Frame.{pushed}

-- From `l` with `x` in `R1`, where there is room for `d` frames, the machine returns `v`.
pub record Runs (p : Platform) (l : Label) (g d e x : ℕ) (h : Heap) (v : ℕ) (h' : Heap)
    : Type 0 where
  pub run : (m : Machine) (s : ℕ) → 5 * d ≤ s → Returns p l (state m s g e x h) s g v h'

-- A block that goes on at another label with the same frames.
pub Runs-step :
    {p : Platform} (l : Label) {l' : Label} {g d e x x' v : ℕ} {h h₁ h' : Heap}
    → is_returned l ≡ false
    → ((m : Machine) (s : ℕ) (applier : Applier)
        → step p applier l (state m s g e x h) ≡ ok l' (state m s g e x' h₁))
    → Runs p l' g d e x' h₁ v h'
    → Runs p l g d e x h v h'
Runs-step l alive block rest = record {
  run = λ m s room.
      Returns-trans (Reaches-step l alive (block m s)) (λ i le other. refl) (rest.run m s room);
}

-- A block that goes on to the return.
pub Runs-return :
    {p : Platform} (l : Label) {g d e x v : ℕ} {h h' : Heap}
    → is_returned l ≡ false
    → ((m : Machine) (s : ℕ) (applier : Applier)
        → step p applier l (state m s g e x h) ≡ ok vm_return (state m s g e v h'))
    → Runs p l g d e x h v h'
Runs-return l {g = g} {e = e} {v = v} {h' = h'} alive block = record {
  run = λ m s room. Returns-here l _ (state m s g e v h') alive (block m s) (λ i le other. refl);
}

-- A block that pushes a frame for a part of its work, and what is done at the label of the frame.
pub Returns-push :
    {p : Platform} (l : Label) {l₀ l₁ : Label} (start m : Machine) {d p1 p2 a w v : ℕ}
    (c s g e x : ℕ) {h h₁ h' : Heap}
    → is_returned l ≡ false
    → label_of c ≡ some l₁
    → SameBut s start m
    → ((applier : Applier) → step p applier l start ≡ push_goto p1 p2 a c l₀ (state m s g e x h))
    → 5 * suc d ≤ s
    → Runs p l₀ g d a p1 h w h₁
    → ((n : Machine) → Returns p l₁ (back n s g e w p2 c h₁) s g v h')
    → Returns p l start s g v h'
Returns-push l start m {p1 = p1} {p2} {a} c s g e x {h} alive known same block room part rest =
    let m₁ = pushed p1 p2 a c (state m s g e x h) in
    let (n, there, same₁) =
      Reaches-back l start m c s g e x alive (omega arith) known block
        (part.run m₁ (s - 5) (omega arith)) in
    Returns-trans there (λ i le other. same₁ i le other ∙ same i le other) (rest n)

pub Runs-push :
    {p : Platform} (l : Label) {l₀ l₁ : Label} {g d e x p1 p2 a w v : ℕ} (x₁ c : ℕ)
    {h h₁ h₂ h' : Heap}
    → is_returned l ≡ false
    → label_of c ≡ some l₁
    → ((m : Machine) (s : ℕ) (applier : Applier)
        → 5 ≤ s
        → step p applier l (state m s g e x h) ≡ push_goto p1 p2 a c l₀ (state m s g e x₁ h₁))
    → Runs p l₀ g d a p1 h₁ w h₂
    → ((m : Machine) (s : ℕ) → 5 * suc d ≤ s → Returns p l₁ (back m s g e w p2 c h₂) s g v h')
    → Runs p l g (suc d) e x h v h'
Runs-push l {g = g} {e = e} {x} x₁ c {h} alive known block part rest = record {
  run = λ m s room.
      Returns-push l (state m s g e x h) m c s g e x₁ alive known (λ i le other. refl)
        (λ applier. block m s applier (omega arith)) room part (λ n. rest n s room);
}

-- No collection is due.
pub gc_check-has_cells :
    (realloc : ℕ → ℕ → ℕ) (k : ℕ) (m : Machine)
    → has_cells m.gc_safety m.heap ≡ true
    → gc_check realloc k m ≡ ok cell_unspecified m
unfolding gc_check
gc_check-has_cells realloc k m enough =
    let e : leb (m.heap.arena_size) (m.heap.free - m.heap.base + m.gc_safety) ≡ false =
      ground (arith, enough) in
    rw e

resolve-Head :
    {x : ℕ} {h h₁ : Heap} (m : Machine) (s g e : ℕ)
    → Head x h h₁
    → resolve_head (state m s g e x h) ≡ ok tt (state m s g e x h₁)
unfolding resolve_head
resolve-Head m s g e (head_plain t c) = rw c
resolve-Head {x} {h} m s g e (head_bound {value} {h₁} t c found defined) = rw c (
    and_then-ok (on_heap (binding_value (car_at h x))) _
      (on_heap-ok (binding_value (car_at h x)) (state m s g e x h) found)
    ∙ rw defined)

Head-pair : {x : ℕ} {h h₁ : Heap} → Head x h h₁ → type_at h x ≡ t_pair
Head-pair (head_plain t c) = t
Head-pair (head_bound t c found defined) = t

-- A pair is evaluated as the form that its head makes.
pub Head-eval :
    (p : Platform) (applier : Applier) {x : ℕ} {h h₁ : Heap} (m : Machine) (s g e : ℕ)
    → Head x h h₁
    → step p applier vm_eval (state m s g e x h) ≡ eval_form p applier (state m s g e x h₁)
unfolding step eval_block
Head-eval p applier m s g e head =
    rw (Head-pair head) (and_then-ok resolve_head _ (resolve-Head m s g e head))
