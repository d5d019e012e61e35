-- ===== src/Gc/Later.antt =====
-- What the rounds of `gc_loop` leave alone.
use mes.Base.{
  ℕ, ◌≤◌, ◌<◌, ◌≡◌, refl, sym, ap, ◌∙◌, ◌≢◌, ◌⊎◌, inl, inr, Bool, true, false, ◌||◌, arith, ◌==◌,
  if◌then◌else◌,
}
use mes.Gc.Copy.{element_count, IsObject}
use mes.Heap.{Cell, Heap, type_at, car_at, cdr_at, write}
use mes.Heap.Const.{t_struct, t_vector, t_broken_heart}

-- A pointer into the old space, which ends at `news`: to an object, or to one that is copied.
abbrev pub IsPointer : Heap → ℕ → ℕ → Type 0
IsPointer h news p = (p < news) × ((type_at h p ≡ t_broken_heart) ⊎ IsObject h p)

-- The pointer `old` has become `new`, where `old` now says that its copy is; or, where the word is
-- no pointer, it is the same.
abbrev pub Moved : Heap → Bool → ℕ → ℕ → Type 0
Moved h true old new = (type_at h old ≡ t_broken_heart) × (car_at h old ≡ new)
Moved h false old new = new ≡ old

-- What the rounds leave alone, while the cell at `scan` changes: the addresses of the copies, and
-- the other cells of the new space.
pub record Later (news scan : ℕ) (h h' : Heap) : Type 0 where
  pub grows : h.free ≤ h'.free
  pub hearts : (p : ℕ) → p < news → type_at h p ≡ t_broken_heart → h'.cells p ≡ h.cells p
  pub same : (p : ℕ) → news ≤ p → p < h.free → p ≢ scan → h'.cells p ≡ h.cells p
  pub pointers : (p : ℕ) → IsPointer h news p → IsPointer h' news p

pub Later-refl : (news scan : ℕ) (h : Heap) → Later news scan h h
Later-refl news scan h = record {
  grows = omega arith;
  hearts = λ p l e. refl;
  same = λ p l l' ne. refl;
  pointers = λ p i. i;
}

pub Later-trans :
    {news scan : ℕ} {h h' h'' : Heap}
    → Later news scan h h'
    → Later news scan h' h''
    → Later news scan h h''
Later-trans r s = record {
  grows = omega (arith, r.grows, s.grows);
  hearts =
      λ p lt e. s.hearts p lt (ap (λ (k : Cell). k.ctype) (r.hearts p lt e) ∙ e) ∙ r.hearts p lt e;
  same = λ p le lt ne. s.same p le (omega (arith, r.grows)) ne ∙ r.same p le lt ne;
  pointers = λ p i. s.pointers p (r.pointers p i);
}

pub IsObject-same :
    {h h' : Heap} (p : ℕ) → h.free ≤ h'.free → h'.cells p ≡ h.cells p → IsObject h p → IsObject h' p
IsObject-same {h} {h'} p le e o =
    let e1 : type_at h' p ≡ type_at h p = ap (λ (k : Cell). k.ctype) e in
    let e2 : car_at h' p ≡ car_at h p = ap (λ (k : Cell). k.car) e in
    let e3 : cdr_at h' p ≡ cdr_at h p = ap (λ (k : Cell). k.cdr) e in
    let count : element_count h' p ≡ element_count h p =
      ap (λ (k : Cell). if (k.ctype == t_struct) || (k.ctype == t_vector) then k.car else 0) e in
    record {
      below = omega (arith, o.below);
      no_heart = λ y. o.no_heart (sym e1 ∙ y);
      elements = omega (arith, o.elements);
      elements_below = ground (arith, o.elements_below, count, e3);
    }

pub Later-write :
    (news scan : ℕ) (h : Heap) (c : Cell)
    → news ≤ scan
    → scan < h.free
    → Later news scan h (write h scan c)
Later-write news scan h c le lt = record {
  grows = omega arith;
  hearts = λ p l e. ground arith;
  same = λ p l l' ne. ground arith;
  pointers = λ p (l, i). (l, either p l i);
}
  where
    either :
        (p : ℕ)
        → p < news
        → (type_at h p ≡ t_broken_heart) ⊎ IsObject h p
        → (type_at (write h scan c) p ≡ t_broken_heart) ⊎ IsObject (write h scan c) p
    either p l (inl e) = inl (ground arith)
    either p l (inr q) = inr (IsObject-same p (omega arith) (ground arith) q)

pub Moved-Later :
    {news scan : ℕ} {h h' : Heap} (b : Bool) (old new : ℕ)
    → (b ≡ true → old < news)
    → Later news scan h h'
    → Moved h b old new
    → Moved h' b old new
Moved-Later false old new below r e = e
Moved-Later true old new below r (e, f) =
    let same = r.hearts old (below refl) e in
    (ap (λ (k : Cell). k.ctype) same ∙ e, ap (λ (k : Cell). k.car) same ∙ f)
