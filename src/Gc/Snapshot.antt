-- ===== src/Gc/Snapshot.antt =====
-- The old space as a collection finds it, and the objects of the new space as copies of its cells.
use mes.Base.{
  ℕ, ◌+◌, ◌^◌, ◌≤◌, ◌<◌, ◌≡◌, refl, ◌≢◌, ◌⊎◌, inl, inr, Bool, true, false, ◌||◌, List, [], ◌∷◌,
  ◌++◌, arith, ◌==◌, if◌then◌else◌,
}
use mes.Gc.{points_car, points_cdr, object_cells}
use mes.Gc.Copy.{element_count}
use mes.Gc.Later.{Moved}
use mes.Heap.{Heap, type_at, car_at, cdr_at}
use mes.Heap.Const.{t_bytes, t_struct, t_vector, t_broken_heart}

-- The heap before the collection; which of its cells begin an object; where the old space ends;
-- and where the objects of the new space begin.
pub record Snapshot : Type 0 where
  pub heap : Heap
  pub head : ℕ → Bool
  pub news : ℕ
  pub start : ℕ

abbrev pub is_compound : ℕ → Bool
is_compound t = (t == t_struct) || (t == t_vector)

-- The pointers of the cell `p` lead to objects of the old space.
abbrev pub PointsOld : Snapshot → ℕ → Type 0
PointsOld g p =
    (points_car (type_at g.heap p) ≡ true
      → (car_at g.heap p < g.news) × (g.head (car_at g.heap p) ≡ true))
    × (points_cdr (type_at g.heap p) ≡ true
        → (cdr_at g.heap p < g.news) × (g.head (cdr_at g.heap p) ≡ true))

-- An element of a struct or a vector: no object of its own, and neither bytes nor compound nor a
-- broken heart.
abbrev pub IsElement : Snapshot → ℕ → Type 0
IsElement g e =
    (e < g.news)
    × (g.head e ≡ false)
    × ((type_at g.heap e == t_bytes) ≡ false)
    × (is_compound (type_at g.heap e) ≡ false)
    × (type_at g.heap e ≢ t_broken_heart)
    × PointsOld g e

pub record IsWellFormed (g : Snapshot) : Type 0 where
  pub news_start : g.news ≤ g.start
  pub no_heart : (p : ℕ) → p < g.news → g.head p ≡ true → type_at g.heap p ≢ t_broken_heart
  pub small : (p : ℕ) → p < g.news → g.head p ≡ true → element_count g.heap p < 2 ^ 63
  pub pointers : (p : ℕ) → p < g.news → g.head p ≡ true → PointsOld g p
  pub elements :
      (p i : ℕ)
      → p < g.news
      → g.head p ≡ true
      → i < element_count g.heap p
      → IsElement g (cdr_at g.heap p + i)

-- The cells that the copy of `o` takes before the next object.
abbrev pub size : Snapshot → ℕ → ℕ
size g o = object_cells g.heap (type_at g.heap o) o

-- The second word of a fresh copy of `o` at `s`.
abbrev pub copied_cdr : Snapshot → ℕ → ℕ → ℕ
copied_cdr g o s = if is_compound (type_at g.heap o) then s + 1 else cdr_at g.heap o

abbrev pub SameBytes : Snapshot → Heap → ℕ → ℕ → Type 0
SameBytes g h o s =
    type_at g.heap o ≡ t_bytes → (i : ℕ) → i < car_at g.heap o → h.bytes s i ≡ g.heap.bytes o i

-- At `s` stands a copy of `o` whose pointers lead to the old space still.
pub record Raw (g : Snapshot) (h : Heap) (o s : ℕ) : Type 0 where
  pub old : o < g.news
  pub alive : type_at g.heap o ≢ t_broken_heart
  pub kind : (g.head o ≡ true) ⊎ (size g o ≡ 1)
  pub points : PointsOld g o
  pub same_type : type_at h s ≡ type_at g.heap o
  pub same_car : car_at h s ≡ car_at g.heap o
  pub same_cdr : cdr_at h s ≡ copied_cdr g o s
  pub bytes : SameBytes g h o s

-- At `s` stands a copy of `o`, in which each pointer is the address of the copy of its target.
pub record Image (g : Snapshot) (h : Heap) (o s : ℕ) : Type 0 where
  pub old : o < g.news
  pub alive : type_at g.heap o ≢ t_broken_heart
  pub kind : (g.head o ≡ true) ⊎ (size g o ≡ 1)
  pub points : PointsOld g o
  pub same_type : type_at h s ≡ type_at g.heap o
  pub moved_car : Moved h (points_car (type_at g.heap o)) (car_at g.heap o) (car_at h s)
  pub moved_cdr : Moved h (points_cdr (type_at g.heap o)) (copied_cdr g o s) (cdr_at h s)
  pub bytes : SameBytes g h o s

-- Where the copies of `os`, laid out from `s` on, end.
abbrev pub total : Snapshot → ℕ → List ℕ → ℕ
total g s [] = s
total g s (o ∷ os) = total g (s + size g o) os

-- `P` holds of each of `os` and its address in the layout from `s` on.
abbrev pub Laid : Snapshot → (ℕ → ℕ → Type 0) → ℕ → List ℕ → Type 0
Laid g P s [] = Unit {0}
Laid g P s (o ∷ os) = P o s × Laid g P (s + size g o) os

-- In the layout of `os` from `s` on `o` has the address `a`.
abbrev pub Placed : Snapshot → ℕ → List ℕ → ℕ → ℕ → Type 0
Placed g s [] o a = ⊥
Placed g s (x ∷ xs) o a = ((o ≡ x) × (a ≡ s)) ⊎ Placed g (s + size g x) xs o a

pub total-append :
    (g : Snapshot) (s : ℕ) (os qs : List ℕ) → total g s (os ++ qs) ≡ total g (total g s os) qs
total-append g s [] qs = refl
total-append g s (o ∷ os) qs = total-append g (s + size g o) os qs

pub size-pos : (g : Snapshot) (o : ℕ) → 0 < size g o
size-pos g o = ground arith

pub total-le : (g : Snapshot) (s : ℕ) (os : List ℕ) → s ≤ total g s os
total-le g s [] = omega arith
total-le g s (o ∷ os) = omega (arith, total-le g (s + size g o) os)

pub Laid-map :
    (g : Snapshot) (P Q : ℕ → ℕ → Type 0) (s : ℕ) (os : List ℕ)
    → ((o a : ℕ) → s ≤ a → a < total g s os → P o a → Q o a)
    → Laid g P s os
    → Laid g Q s os
Laid-map g P Q s [] f l = tt
Laid-map g P Q s (o ∷ os) f (p, l) =
    let le = total-le g (s + size g o) os in
    (
      f o s (omega arith) (omega (arith, size-pos g o)) p,
      Laid-map g P Q (s + size g o) os (λ o' a b lt. f o' a (omega arith) lt) l,
    )

pub Laid-append :
    (g : Snapshot) (P : ℕ → ℕ → Type 0) (s : ℕ) (os qs : List ℕ)
    → Laid g P s os
    → Laid g P (total g s os) qs
    → Laid g P s (os ++ qs)
Laid-append g P s [] qs l m = m
Laid-append g P s (o ∷ os) qs (p, l) m = (p, Laid-append g P (s + size g o) os qs l m)

pub Placed-append :
    (g : Snapshot) (s : ℕ) (os qs : List ℕ) (o a : ℕ)
    → Placed g s os o a
    → Placed g s (os ++ qs) o a
Placed-append g s [] qs o a p = elim p [ ]
Placed-append g s (x ∷ xs) qs o a (inl p) = inl p
Placed-append g s (x ∷ xs) qs o a (inr p) = inr (Placed-append g (s + size g x) xs qs o a p)

pub Placed-after :
    (g : Snapshot) (s : ℕ) (os qs : List ℕ) (o a : ℕ)
    → Placed g (total g s os) qs o a
    → Placed g s (os ++ qs) o a
Placed-after g s [] qs o a p = p
Placed-after g s (x ∷ xs) qs o a p = inr (Placed-after g (s + size g x) xs qs o a p)

pub Placed-Laid :
    (g : Snapshot) (P : ℕ → ℕ → Type 0) (s : ℕ) (os : List ℕ) (o a : ℕ)
    → Laid g P s os
    → Placed g s os o a
    → P o a
Placed-Laid g P s [] o a l p = elim p [ ]
Placed-Laid g P s (x ∷ xs) o a (q, l) (inl (e, f)) = rw (e, f) q
Placed-Laid g P s (x ∷ xs) o a (q, l) (inr p) = Placed-Laid g P (s + size g x) xs o a l p
