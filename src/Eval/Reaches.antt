-- ===== src/Eval/Reaches.antt =====
-- Runs of the register machine of src/eval-apply.c: what it reaches, and what a pushed frame is for.
use mes.Base.{
  ℕ, suc, ◌+◌, ◌-◌, ◌≤◌, ◌<◌, ◌≡◌, refl, ap, ◌∙◌, ◌⊎◌, inl, inr, false, none, some, arith,
}
use mes.Eval.{Platform, Applier}
use mes.Eval.Control.{vm_return_block}
use mes.Eval.Label.{Label, dispatch, vm_return, push_goto}
use mes.Eval.Step.{label_of, dispatch_block, step, apply_with, is_returned, run_from}
use mes.Heap.{Heap, ok, abort}
use mes.Machine.{Machine}
use mes.Machine.Frame.{pushed, push_cc_ok, pop}

-- The machine gets from one label to another, whatever the steps that are left.
pub record Reaches (p : Platform) (l : Label) (m : Machine) (l' : Label) (m' : Machine)
    : Type 0 where
  pub steps : ℕ
  pub runs : (k : ℕ) → run_from (steps + k) p l m ≡ run_from k p l' m'

pub Reaches-trans :
    {p : Platform} {l l' l'' : Label} {m m' m'' : Machine}
    → Reaches p l m l' m'
    → Reaches p l' m' l'' m''
    → Reaches p l m l'' m''
Reaches-trans {p} {l} {m = m} a b = record {
  steps = a.steps + b.steps;
  runs = λ k.
      let e : a.steps + b.steps + k ≡ a.steps + (b.steps + k) = omega arith in
      ap (λ n. run_from n p l m) e ∙ (a.runs (b.steps + k) ∙ b.runs k);
}

pub Reaches-here : {p : Platform} {l : Label} {m : Machine} → Reaches p l m l m
Reaches-here {p} {l} {m} = record {
  steps = 0;
  runs = λ k. ap (λ n. run_from n p l m) (let z : 0 + k ≡ k = omega arith in z);
}

-- One step.
pub Reaches-step :
    {p : Platform} (l : Label) {l' : Label} {m m' : Machine}
    → is_returned l ≡ false
    → ((applier : Applier) → step p applier l m ≡ ok l' m')
    → Reaches p l m l' m'
unfolding run_from
Reaches-step {p} l {l'} {m} {m'} alive e = record { steps = 1; runs = λ k. one_more k }
  where
    one_step : (k : ℕ) → run_from (suc k) p l m ≡ run_from k p l' m'
    one_step k = rw (alive, e (apply_with (run_from k p dispatch)))

    one_more : (k : ℕ) → run_from (1 + k) p l m ≡ run_from k p l' m'
    one_more k = ap (λ n. run_from n p l m) (let z : 1 + k ≡ suc k = omega arith in z) ∙ one_step k

-- The machine with `x` in `R1`, the environment `e` and the heap `h`, at the stack index `s`.
abbrev pub state : Machine → ℕ → ℕ → ℕ → ℕ → Heap → Machine
state m s g e x h = record m { heap = h; stack = s; r0 = e; r1 = x; gc_safety = g }

-- The slots from `s` on are the same, but for the one that notes the procedure of the frame at `s`.
abbrev pub SameBut : ℕ → Machine → Machine → Type 0
SameBut s m n = (i : ℕ) → s ≤ i → (i < s + 4) ⊎ (s + 5 ≤ i) → n.stack_array i ≡ m.stack_array i

-- From `l`, the machine comes to its return with the value `v` in the heap `h`, at the same stack
-- index and with the same frames.
pub record Returns (p : Platform) (l : Label) (m : Machine) (s g v : ℕ) (h : Heap) : Type 0 where
  pub last : Machine
  pub reached : Reaches p l m vm_return (state last s g (last.r0) v h)
  pub same : SameBut s m last

-- The machine that a frame gives back.
abbrev pub back : Machine → ℕ → ℕ → ℕ → ℕ → ℕ → ℕ → Heap → Machine
back n s g e v p2 c h = record n {
  heap = h;
  stack = s;
  r0 = e;
  r1 = v;
  r2 = p2;
  r3 = c;
  gc_safety = g;
}

pub return_to :
    (p : Platform) (p1 p2 a c : ℕ) {l : Label} (m n : Machine) (s g e x v : ℕ) (h h' : Heap)
    → 5 ≤ s
    → label_of c ≡ some l
    → SameBut (s - 5) (pushed p1 p2 a c (state m s g e x h)) n
    → Reaches p vm_return (state n (s - 5) g n.r0 v h') l (back n s g e v p2 c h')
unfolding step vm_return_block dispatch_block
return_to p p1 p2 a c {l} m n s g e x v h h' room known same =
    let popped =
      pop p1 p2 a c (state m s g e x h) (state n (s - 5) g n.r0 v h') room refl
        (λ i le lt. same i le (inl lt)) in
    Reaches-trans
      (Reaches-step vm_return {l' = dispatch} {m' = back n s g e v p2 c h'} refl
        (λ applier. rw popped))
      (Reaches-step dispatch refl (λ applier.
        ap (λ o. elim o [ none ↦ abort | some l ↦ ok l (back n s g e v p2 c h') ]) known))

-- A block that pushes a frame and goes on at `l₀`, which returns: the frame's label is reached, and
-- the value, the old environment, what the frame holds and the label's number are in the registers.
pub Reaches-back :
    {p : Platform} (l : Label) {l₀ l₁ : Label} (start m : Machine) {p1 p2 a : ℕ} (c s g e x : ℕ)
    {v : ℕ} {h h' : Heap}
    → is_returned l ≡ false
    → 5 ≤ s
    → label_of c ≡ some l₁
    → ((applier : Applier) → step p applier l start ≡ push_goto p1 p2 a c l₀ (state m s g e x h))
    → Returns p l₀ (pushed p1 p2 a c (state m s g e x h)) (s - 5) g v h'
    → (n : Machine) × Reaches p l start l₁ (back n s g e v p2 c h') × SameBut s m n
Reaches-back {p} l {l₀} {l₁} start m {p1} {p2} {a} c s g e x {v} {h} {h'} alive room known block
      ret =
    let n = ret.last in
    let ok_push = push_cc_ok p1 p2 a c (state m s g e x h) room in
    (
      n,
      Reaches-trans
          (Reaches-step l {l' = l₀} {m' = pushed p1 p2 a c (state m s g e x h)} alive
            (λ applier. block applier ∙ rw ok_push))
          (Reaches-trans (ret.reached)
            (return_to p p1 p2 a c m n s g e x v h h' room known (ret.same))),
      λ i le other. ((ret.same) i (omega arith) (inr (omega arith))) ∙ ground arith,
    )

pub Returns-trans :
    {p : Platform} {l l' : Label} {m m' : Machine} {s g v : ℕ} {h : Heap}
    → Reaches p l m l' m'
    → SameBut s m m'
    → Returns p l' m' s g v h
    → Returns p l m s g v h
Returns-trans r same ret = record {
  last = ret.last;
  reached = Reaches-trans r (ret.reached);
  same = λ i le other. (ret.same) i le other ∙ same i le other;
}

pub Returns-here :
    {p : Platform} (l : Label) (m n : Machine) {s g v : ℕ} {h : Heap}
    → is_returned l ≡ false
    → ((applier : Applier) → step p applier l m ≡ ok vm_return (state n s g n.r0 v h))
    → SameBut s m n
    → Returns p l m s g v h
Returns-here l m n alive e same = record { last = n; reached = Reaches-step l alive e; same = same }
