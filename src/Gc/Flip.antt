-- ===== src/Gc/Flip.antt =====
-- `gc_cellcpy` in `gc_flip` of src/gc.c: the new space is moved down onto the old one.
use mes.Base.{
  ℕ, zero, suc, ◌+◌, ◌-◌, ◌^◌, ◌≤◌, ◌<◌, ◌≡◌, refl, sym, ap, ◌∙◌, subst, ◌≢◌, inl, inr, false, List,
  [], ◌∷◌, arith, ◌==◌, if◌then◌else◌, ==_iff, Bool-cases, length, sub_word,
}
use mes.Gc.{points_car, object_cells, gc_cellcpy_loop}
use mes.Gc.Later.{Moved}
use mes.Gc.Shift.{shifted, shift, Shifted, Places, shift-Places, gc_cellcpy_step}
use mes.Gc.Snapshot.{Snapshot, IsWellFormed, size, Image, total, Laid, size-pos, total-le}
use mes.Heap.{Cell, Heap, Run, ok, type_at, car_at}
use mes.Heap.Alloc.{bytes_cells}
use mes.Heap.Const.{t_bytes, t_broken_heart}

-- A copy of bytes has their length.
pub length_stays :
    (g : Snapshot) (h : Heap) (o s : ℕ)
    → Image g h o s
    → type_at g.heap o ≡ t_bytes
    → car_at h s ≡ car_at g.heap o
unfolding points_car
length_stays g h o s i e =
    let none : points_car (type_at g.heap o) ≡ false = ground arith in
    subst (λ b. Moved h b (car_at g.heap o) (car_at h s)) none i.moved_car

pub size_stays :
    (g : Snapshot) (h : Heap) (o s : ℕ) → Image g h o s → object_cells h (type_at h s) s ≡ size g o
size_stays g h o s i =
    let t : type_at h s ≡ type_at g.heap o = i.same_type in
    elim (Bool-cases (type_at g.heap o == t_bytes)) [
      | inl y ↦ rw (t, length_stays g h o s i ((==_iff _ _).0 y)) refl
      | inr n ↦ rw (t, n) refl
    ]

-- A run that moves the objects `os`, which stood from `s` on in `h0`.
pub record Flips (g : Snapshot) (os : List ℕ) (s dist : ℕ) (h0 h : Heap) (run : Run Heap (Unit {0}))
    : Type 0 where
  pub heap : Heap
  pub returns : run ≡ ok tt heap
  pub moved : Laid g (λ o a. Shifted dist h0 heap a) s os
  pub below : (q : ℕ) → q < s - dist → heap.cells q ≡ h.cells q
  pub below_bytes : (q : ℕ) → q < s - dist → heap.bytes q ≡ h.bytes q
  pub same_free : heap.free ≡ h.free

pub sub_word_lem : (a b : ℕ) → b ≤ a → a < 2 ^ 64 → sub_word a b ≡ a - b
sub_word_lem a b le lt = omega arith

-- What stands at `dest` after a round stays there.
Shifted-Places :
    (dist d s : ℕ) (h0 h h1 heap : Heap)
    → d + dist ≡ s
    → h.cells s ≡ h0.cells s
    → h.bytes s ≡ h0.bytes s
    → Places dist d s h h1
    → heap.cells d ≡ h1.cells d
    → heap.bytes d ≡ h1.bytes d
    → Shifted dist h0 heap s
Shifted-Places dist d s h0 h h1 heap e same same_bytes p c b =
    let at : s - dist ≡ d = omega arith in
    record {
      cells = ap heap.cells at ∙ c ∙ p.cells ∙ ap (shifted dist) same;
      bytes = λ t i lt.
          ap (λ (q : ℕ). heap.bytes q i) at
          ∙ ap (λ (f : ℕ → ℕ). f i) b
          ∙ p.bytes (ap (λ (k : Cell). k.ctype) same ∙ t) i
              (subst (λ (k : ℕ). i < k) (sym (ap (λ (k : Cell). k.car) same)) lt)
          ∙ ap (λ (f : ℕ → ℕ). f i) same_bytes;
    }

pub gc_cellcpy-Flips :
    (os : List ℕ) (g : Snapshot) (k dist d s left : ℕ) (h0 h : Heap)
    → IsWellFormed g
    → Laid g (Image g h0) s os
    → length os < k
    → 0 < dist
    → d + dist ≡ s
    → left + s ≡ total g s os
    → total g s os < 2 ^ 64
    → ((q : ℕ) → s ≤ q → h.cells q ≡ h0.cells q)
    → ((q : ℕ) → s ≤ q → h.bytes q ≡ h0.bytes q)
    → Flips g os s dist h0 h (gc_cellcpy_loop k dist d s left h)
unfolding gc_cellcpy_loop
gc_cellcpy-Flips [] g zero dist d s left h0 h wf l fuel pos e e' lt same same_bytes =
    absurd (omega arith)
gc_cellcpy-Flips (o ∷ os) g zero dist d s left h0 h wf l fuel pos e e' lt same same_bytes =
    absurd (omega arith)
gc_cellcpy-Flips [] g (suc k) dist d s left h0 h wf l fuel pos e e' lt same same_bytes =
    let none : left ≡ 0 = omega arith in
    record {
      heap = h;
      returns = rw none refl;
      moved = tt;
      below = λ q lt. refl;
      below_bytes = λ q lt. refl;
      same_free = refl;
    }
gc_cellcpy-Flips (o ∷ os) g (suc k) dist d s left h0 h wf (i, l) fuel pos e e' lt same same_bytes =
    let here = same s (omega arith) in
    let t : type_at h s ≡ type_at g.heap o = ap (λ (k : Cell). k.ctype) here ∙ i.same_type in
    let alive : type_at h s ≢ t_broken_heart = λ f. i.alive (sym t ∙ f) in
    let n : object_cells h (type_at h s) s ≡ size g o =
      ap (λ (k : Cell). if k.ctype == t_bytes then bytes_cells k.car else 1) here
      ∙ size_stays g h0 o s i in
    let bound = total-le g (s + size g o) os in
    let rest_left : sub_word left (size g o) ≡ left - size g o =
      sub_word_lem left (size g o) (omega arith) (omega arith) in
    let p = shift-Places dist d s h in
    let h1 = shift dist d s h in
    let r =
      gc_cellcpy-Flips os g k dist (d + size g o) (s + size g o) (left - size g o) h0 h1 wf l
        (omega arith) pos (omega arith) (omega arith) lt
        (λ q le. p.same q (omega arith) ∙ same q (omega arith))
        (λ q le. p.same_bytes q (omega arith) ∙ same_bytes q (omega arith)) in
    let some_cells = size-pos g o in
    record {
      heap = r.heap;
      returns =
          gc_cellcpy_step k dist d s left h (omega arith) alive
          ∙ ap (λ (n : ℕ). gc_cellcpy_loop k dist (d + n) (s + n) (sub_word left n) h1) n
          ∙ ap (λ (n : ℕ). gc_cellcpy_loop k dist (d + size g o) (s + size g o) n h1) rest_left
          ∙ r.returns;
      moved = (
        Shifted-Places dist d s h0 h h1 r.heap e here (same_bytes s (omega arith)) p
            (r.below d (omega arith)) (r.below_bytes d (omega arith)),
        r.moved,
      );
      below = λ q b. r.below q (omega arith) ∙ p.same q (omega arith);
      below_bytes = λ q b. r.below_bytes q (omega arith) ∙ p.same_bytes q (omega arith);
      same_free = r.same_free ∙ p.same_free;
    }
