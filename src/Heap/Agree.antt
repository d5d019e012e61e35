-- ===== src/Heap/Agree.antt =====
-- What an allocation leaves alone, and lists in the heap.
use mes.Base.{ℕ, suc, ◌+◌, ◌^◌, ◌≤◌, ◌<◌, ◌≡◌, refl, ap, ◌∙◌, ◌≢◌, List, [], ◌∷◌, arith}
use mes.Heap.{Cell, Heap, ok, type_at, car_at, cdr_at, cell, write}
use mes.Heap.Alloc.{alloc, make_cell}
use mes.Heap.Const.{t_pair, cell_nil}

-- `h'` is `h` after allocations: what stood below `g_free` is the same.
pub record Extends (h h' : Heap) : Type 0 where
  pub grows : h.free ≤ h'.free
  pub same : (p : ℕ) → p < h.free → h'.cells p ≡ h.cells p
  pub same_bytes : (p : ℕ) → p < h.free → h'.bytes p ≡ h.bytes p
  pub same_base : h'.base ≡ h.base
  pub same_size : h'.arena_size ≡ h.arena_size

-- `n` more cells fit.
pub record Room (n : ℕ) (h : Heap) : Type 0 where
  pub above : h.base ≤ h.free
  pub fits : h.free + n ≤ h.base + h.arena_size
  pub small : h.base + h.arena_size < 2 ^ 63

-- The heap with one more cell.
abbrev pub grow : Heap → Cell → Heap
grow h c = write (record h { free = h.free + 1 }) h.free c

pub make_cell_ok :
    {n : ℕ} (t a d : ℕ) (h : Heap)
    → Room (suc n) h
    → make_cell t a d h ≡ ok h.free (grow h (cell t a d))
unfolding make_cell
make_cell_ok t a d h r = ground (arith, r.above, r.fits)

pub alloc_ok :
    (n : ℕ) (h : Heap) → Room n h → alloc n h ≡ ok h.free (record h { free = h.free + n })
unfolding alloc
alloc_ok n h r = ground (arith, r.above, r.fits, r.small)

pub Room-grow : {n : ℕ} (h : Heap) (c : Cell) → Room (suc n) h → Room n (grow h c)
Room-grow h c r = record {
  above = omega (arith, r.above);
  fits = omega (arith, r.fits);
  small = r.small;
}

pub Room-mono : {n m : ℕ} {h : Heap} → n ≤ m → Room m h → Room n h
Room-mono le r = record { above = r.above; fits = omega (arith, r.fits); small = r.small }

pub Extends-refl : (h : Heap) → Extends h h
Extends-refl h = record {
  grows = omega arith;
  same = λ p lt. refl;
  same_bytes = λ p lt. refl;
  same_base = refl;
  same_size = refl;
}

pub Extends-grow : (h : Heap) (c : Cell) → Extends h (grow h c)
Extends-grow h c = record {
  grows = omega arith;
  same = λ p lt. ground arith;
  same_bytes = λ p lt. refl;
  same_base = refl;
  same_size = refl;
}

pub Extends-trans : {h h' h'' : Heap} → Extends h h' → Extends h' h'' → Extends h h''
Extends-trans e f = record {
  grows = omega (arith, e.grows, f.grows);
  same = λ p lt. f.same p (omega (arith, e.grows)) ∙ e.same p lt;
  same_bytes = λ p lt. f.same_bytes p (omega (arith, e.grows)) ∙ e.same_bytes p lt;
  same_base = f.same_base ∙ e.same_base;
  same_size = f.same_size ∙ e.same_size;
}

-- From `p` the `cdr`s of pairs below `b` lead through the cars `xs` to `()`.
abbrev pub ListAt : Heap → ℕ → ℕ → List ℕ → Type 0
ListAt h b p [] = p ≡ cell_nil
ListAt h b p (x ∷ xs) =
    (p ≢ cell_nil)
    × (p < b)
    × (type_at h p ≡ t_pair)
    × (car_at h p ≡ x)
    × ListAt h b (cdr_at h p) xs

-- A list survives what leaves its own cells alone.
pub ListAt-frame :
    (h h' : Heap) (b b' p : ℕ) (xs : List ℕ)
    → b ≤ b'
    → ((q : ℕ) → q < b → h'.cells q ≡ h.cells q)
    → ListAt h b p xs
    → ListAt h' b' p xs
ListAt-frame h h' b b' p [] le same l = l
ListAt-frame h h' b b' p (x ∷ xs) le same (a, lt, t, c, r) = (
  a,
  omega arith,
  ap (λ (k : Cell). k.ctype) (same p lt) ∙ t,
  ap (λ (k : Cell). k.car) (same p lt) ∙ c,
  rw (same p lt, cdr_at) (ListAt-frame h h' b b' (cdr_at h p) xs le same r),
)

pub ListAt-Extends :
    {h h' : Heap} (p : ℕ) (xs : List ℕ)
    → Extends h h'
    → ListAt h h.free p xs
    → ListAt h' h'.free p xs
ListAt-Extends {h} {h'} p xs e l = ListAt-frame h h' h.free h'.free p xs e.grows e.same l

-- `cons` in front of a list.
pub ListAt-cons :
    {n : ℕ} (h : Heap) (x p : ℕ) (xs : List ℕ)
    → Room n h
    → cell_nil < h.free
    → ListAt h h.free p xs
    → ListAt (grow h (cell t_pair x p)) (h.free + 1) h.free (x ∷ xs)
ListAt-cons h x p xs r lt l =
    let h' = grow h (cell t_pair x p) in
    (
      omega arith,
      omega arith,
      ground arith,
      ground arith,
      let e : cdr_at h' h.free ≡ p = ground arith in
          rw e (ListAt-frame h h' h.free (h.free + 1) p xs (omega arith) (λ q lt. ground arith) l),
    )
