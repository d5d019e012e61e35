-- ===== src/Gc/Carry.antt =====
-- A word and a cell of the old space, and what has become of them when `gc_flip` is done.
use mes.Base.{
  ℕ, ◌+◌, ◌-◌, ◌^◌, ◌≤◌, ◌<◌, ◌≡◌, refl, sym, ap, ◌∙◌, subst, inl, inr, Bool, true, false, ◌&&◌,
  ◌||◌, arith, ◌==◌, if◌then◌else◌, Bool-cases, sub_word,
}
use mes.Gc.{points_car, points_cdr, moves_cdr}
use mes.Gc.Flip.{length_stays, sub_word_lem}
use mes.Gc.Later.{Moved}
use mes.Gc.Open.{points_cdr-simple}
use mes.Gc.Shift.{Shifted}
use mes.Gc.Snapshot.{Snapshot, is_compound, copied_cdr, Image}
use mes.Heap.{Cell, Heap, type_at, car_at, cdr_at}
use mes.Heap.Const.{t_bytes, t_broken_heart}

-- A pointer leads to an object that was reached, and has become the address of it; any other word
-- is the same.
abbrev pub Carried : (ℕ → Bool) → (ℕ → ℕ) → Bool → ℕ → ℕ → Type 0
Carried reached address true old new = (reached old ≡ true) × (new ≡ address old)
Carried reached address false old new = new ≡ old

-- The cell at `a` in `h'` is that at `q` in `h`, with the addresses of its targets.
pub record CarriedCell (reached : ℕ → Bool) (address : ℕ → ℕ) (h h' : Heap) (q a : ℕ) : Type 0 where
  pub same_type : type_at h' a ≡ type_at h q
  pub car : Carried reached address (points_car (type_at h q)) (car_at h q) (car_at h' a)
  pub cdr :
      (type_at h q == t_bytes) ≡ false
      → is_compound (type_at h q) ≡ false
      → Carried reached address (points_cdr (type_at h q)) (cdr_at h q) (cdr_at h' a)
  pub elements : is_compound (type_at h q) ≡ true → cdr_at h' a ≡ a + 1
  pub bytes : type_at h q ≡ t_bytes → (i : ℕ) → i < car_at h q → h'.bytes a i ≡ h.bytes q i

-- Whether the cell is an object that was copied, and where its copy will be.
abbrev pub is_reached : Snapshot → Heap → ℕ → Bool
is_reached g h q = g.head q && (type_at h q == t_broken_heart)

abbrev pub new_address : ℕ → Heap → ℕ → ℕ
new_address dist h q = car_at h q - dist

pub Moved-Carried :
    (dist : ℕ) (g : Snapshot) (h : Heap) (b : Bool) (old new : ℕ)
    → ((q : ℕ)
        → q < g.news
        → g.head q ≡ true
        → type_at h q ≡ t_broken_heart
        → (dist ≤ car_at h q) × (car_at h q < 2 ^ 64))
    → (b ≡ true → (old < g.news) × (g.head old ≡ true))
    → Moved h b old new
    → Carried (is_reached g h) (new_address dist h) b old (if b then sub_word new dist else new)
Moved-Carried dist g h true old new range below (e, f) =
    let (le, lt) = range old (below refl).0 (below refl).1 e in
    (
      ground (arith, (below refl).1),
      subst (λ k. sub_word k dist ≡ car_at h old - dist) f (sub_word_lem (car_at h old) dist le lt),
    )
Moved-Carried dist g h false old new range below e = e

cdr_moves : (t : ℕ) → (t == t_bytes) ≡ false → is_compound t ≡ false → moves_cdr t ≡ points_cdr t
unfolding moves_cdr
cdr_moves t b c = let last : (points_cdr t || false) ≡ points_cdr t = ground arith in rw (b, c) last

compound_moves : (t : ℕ) → is_compound t ≡ true → (moves_cdr t ≡ true) × (points_cdr t ≡ false)
unfolding moves_cdr
compound_moves t c = elim (Bool-cases (points_cdr t)) [
  | inl y ↦ absurd (ground (arith, points_cdr-simple t y))
  | inr n ↦ (rw c (ground arith), n)
]

pub Image-CarriedCell :
    (g : Snapshot) (dist : ℕ) (h h' : Heap) (q s : ℕ)
    → ((q : ℕ)
        → q < g.news
        → g.head q ≡ true
        → type_at h q ≡ t_broken_heart
        → (dist ≤ car_at h q) × (car_at h q < 2 ^ 64))
    → dist ≤ s
    → s + 1 < 2 ^ 64
    → Image g h q s
    → Shifted dist h h' s
    → CarriedCell (is_reached g h) (new_address dist h) g.heap h' q (s - dist)
Image-CarriedCell g dist h h' q s range le lt i f =
    let t : type_at h s ≡ type_at g.heap q = i.same_type in
    let type' : type_at h' (s - dist) ≡ type_at g.heap q = ap (λ (k : Cell). k.ctype) f.cells ∙ t in
    let car' : car_at h' (s - dist)
        ≡ (if points_car (type_at g.heap q) then sub_word (car_at h s) dist else car_at h s) =
      ap (λ (k : Cell). k.car) f.cells
      ∙ ap (λ (t : ℕ). if points_car t then sub_word (car_at h s) dist else car_at h s) t in
    let cdr' : cdr_at h' (s - dist)
        ≡ (if moves_cdr (type_at g.heap q) then sub_word (cdr_at h s) dist else cdr_at h s) =
      ap (λ (k : Cell). k.cdr) f.cells
      ∙ ap (λ (t : ℕ). if moves_cdr t then sub_word (cdr_at h s) dist else cdr_at h s) t in
    record {
      same_type = type';
      car =
          subst
            (Carried (is_reached g h) (new_address dist h) (points_car (type_at g.heap q))
              (car_at g.heap q))
            (sym car') (Moved-Carried dist g h _ _ _ range (λ y. i.points.0 y) i.moved_car);
      cdr = λ b c.
          subst
            (Carried (is_reached g h) (new_address dist h) (points_cdr (type_at g.heap q))
              (cdr_at g.heap q))
            (sym (
              cdr'
              ∙ ap (λ (b : Bool). if b then sub_word (cdr_at h s) dist else cdr_at h s)
                  (cdr_moves (type_at g.heap q) b c)))
            (Moved-Carried dist g h _ _ _ range (λ y. i.points.1 y)
              (subst (λ k. Moved h (points_cdr (type_at g.heap q)) k (cdr_at h s)) (rw c refl)
                i.moved_cdr));
      elements = λ c.
          let (m, p) = compound_moves (type_at g.heap q) c in
          let next : cdr_at h s ≡ copied_cdr g q s =
            subst (λ b. Moved h b (copied_cdr g q s) (cdr_at h s)) p i.moved_cdr in
          let behind : copied_cdr g q s ≡ s + 1 = rw c refl in
          let down : sub_word (s + 1) dist ≡ s + 1 - dist =
            sub_word_lem (s + 1) dist (omega arith) lt in
          cdr'
          ∙ ap (λ (b : Bool). if b then sub_word (cdr_at h s) dist else cdr_at h s) m
          ∙ ap (λ (k : ℕ). sub_word k dist) (next ∙ behind)
          ∙ down
          ∙ omega arith;
      bytes = λ e j l.
          f.bytes (t ∙ e) j (subst (λ k. j < k) (sym (length_stays g h q s i e)) l) ∙ i.bytes e j l;
    }
