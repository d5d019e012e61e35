-- ===== src/Core/Reverse.antt =====
-- `core:reverse!` of src/core.c turns the `cdr`s round in place.
use mes.Base.{
  ℕ, zero, suc, ◌<◌, ◌≡◌, refl, ◌∙◌, ◌≢◌, true, false, List, [], ◌∷◌, reverse_aux, arith, ◌==◌,
  length,
}
use mes.Core.{reverse_loop, reverse_x}
use mes.Heap.{Heap, Run, ok, type_at, car_at, cdr_at, write_cdr}
use mes.Heap.Const.{t_pair, cell_nil}

-- The pairs `cs`, in this order, are the spine of a list that starts at `p`.
abbrev pub Spine : Heap → ℕ → List ℕ → Type 0
Spine h p [] = p ≡ cell_nil
Spine h p (c ∷ cs) = (p ≡ c) × (c ≢ cell_nil) × (type_at h c ≡ t_pair) × Spine h (cdr_at h c) cs

abbrev pub NotIn : ℕ → List ℕ → Type 0
NotIn c [] = Unit {0}
NotIn c (d ∷ ds) = (c ≢ d) × NotIn c ds

-- The cells of `cs` differ from one another and from those of `ds`.
abbrev pub Apart : List ℕ → List ℕ → Type 0
Apart [] ds = Unit {0}
Apart (c ∷ cs) ds = NotIn c cs × NotIn c ds × Apart cs (c ∷ ds)

-- Only `cdr`s of the cells `cs` differ.
pub record Relinks (cs : List ℕ) (h h' : Heap) : Type 0 where
  pub same_type : (p : ℕ) → type_at h' p ≡ type_at h p
  pub same_car : (p : ℕ) → car_at h' p ≡ car_at h p
  pub same_cdr : (p : ℕ) → NotIn p cs → cdr_at h' p ≡ cdr_at h p
  pub same_free : h'.free ≡ h.free

pub record Reverses (cs ds : List ℕ) (h : Heap) (run : Run Heap ℕ) : Type 0 where
  pub at : ℕ
  pub heap : Heap
  pub returns : run ≡ ok at heap
  pub spine : Spine heap at (reverse_aux cs ds)
  pub relinks : Relinks cs h heap

Spine-write_cdr :
    (h : Heap) (c v p : ℕ) (cs : List ℕ) → NotIn c cs → Spine h p cs → Spine (write_cdr h c v) p cs
Spine-write_cdr h c v p [] out s = s
Spine-write_cdr h c v p (d ∷ cs) (ne, out) (e, nil, t, s) =
    let f : cdr_at (write_cdr h c v) d ≡ cdr_at h d = ground arith in
    (e, nil, ground arith, rw (f, cdr_at) (Spine-write_cdr h c v (cdr_at h d) cs out s))

Relinks-write_cdr :
    {cs : List ℕ} {h h' : Heap} (c v : ℕ) → Relinks cs (write_cdr h c v) h' → Relinks (c ∷ cs) h h'
Relinks-write_cdr {h} c v r = record {
  same_type = λ p. ground (arith, r.same_type p);
  same_car = λ p. ground (arith, r.same_car p);
  same_cdr = λ p (ne, out). ground (arith, r.same_cdr p out);
  same_free = r.same_free;
}

reverse_loop_step :
    (k x r c : ℕ) (h : Heap)
    → x ≡ c
    → c ≢ cell_nil
    → reverse_loop (suc k) x r h ≡ reverse_loop k (cdr_at h c) c (write_cdr h c r)
unfolding reverse_loop
reverse_loop_step k x r c h e nil = rw e (let n : (c == cell_nil) ≡ false = ground arith in rw n)

reverse_loop_lem :
    (cs ds : List ℕ) (k x r : ℕ) (h : Heap)
    → Spine h x cs
    → Spine h r ds
    → Apart cs ds
    → length cs < k
    → Reverses cs ds h (reverse_loop k x r h)
unfolding reverse_loop
reverse_loop_lem cs ds zero x r h sx sr a lt = absurd (omega arith)
reverse_loop_lem [] ds (suc k) x r h sx sr a lt = record {
  at = r;
  heap = h;
  returns = ground arith;
  spine = sr;
  relinks = record {
    same_type = λ p. refl;
    same_car = λ p. refl;
    same_cdr = λ p out. refl;
    same_free = refl;
  };
}
reverse_loop_lem (c ∷ cs) ds (suc k) x r h (e, nil, t, sx) sr (out, out', a) lt =
    let g = write_cdr h c r in
    let f : cdr_at g c ≡ r = ground arith in
    let front : Spine g (cdr_at h c) cs = Spine-write_cdr h c r (cdr_at h c) cs out sx in
    let back : Spine g c (c ∷ ds) =
      (refl, nil, ground arith, rw (f, cdr_at) (Spine-write_cdr h c r r ds out' sr)) in
    let rest = reverse_loop_lem cs (c ∷ ds) k (cdr_at h c) c g front back a (omega arith) in
    record {
      at = rest.at;
      heap = rest.heap;
      returns = reverse_loop_step k x r c h e nil ∙ rest.returns;
      spine = rest.spine;
      relinks = Relinks-write_cdr c r rest.relinks;
    }

-- `reverse!` of a list with the cells `cs` onto a list with the cells `ds`, all of them different:
-- with enough rounds it returns the cells `cs` in reverse order before `ds`. It allocates
-- nothing, and writes nothing but the `cdr`s of `cs`.
pub reverse_x-Reverses :
    (cs ds : List ℕ) (k x t : ℕ) (h : Heap)
    → Spine h x cs
    → Spine h t ds
    → Apart cs ds
    → length cs < k
    → Reverses cs ds h (reverse_x k x t h)
unfolding reverse_x
reverse_x-Reverses [] ds k x t h sx st a lt =
    let e : (x == cell_nil) ≡ true = ground arith in
    rw e (reverse_loop_lem [] ds k x t h sx st a lt)
reverse_x-Reverses (c ∷ cs) ds k x t h (e, nil, ty, sx) st a lt =
    let p : type_at h x ≡ t_pair = rw (e, type_at) ty in
    rw (p, type_at)
      (let n : (x == cell_nil) ≡ false = ground arith in
        rw n (reverse_loop_lem (c ∷ cs) ds k x t h (e, nil, ty, sx) st a lt))
