-- ===== src/Machine/Frame.antt =====
-- Stack frames: what `push_cc` saves, `gc_pop_frame` gives back.
use mathlib.Core.Path.{subst}
use mes.Base.{ℕ, ◌+◌, ◌-◌, ◌≤◌, ◌<◌, ◌≡◌, refl, sym, ap, ◌∙◌, false, arith, ltb}
use mes.Heap.{Run, ok, throw, abort, out_of_fuel, update}
use mes.Heap.Const.{gc_frame_size, cell_f}
use mes.Machine.{Machine, gc_push_frame, gc_peek_frame, gc_pop_frame, push_cc}

-- The slots of the stack from `s` on are the same.
abbrev pub SameFrom : ℕ → Machine → Machine → Type 0
SameFrom s m n = (i : ℕ) → s ≤ i → n.stack_array i ≡ m.stack_array i

-- The four slots of a frame at `s` that are read back.
abbrev pub SameFrame : ℕ → Machine → Machine → Type 0
SameFrame s m n = (i : ℕ) → s ≤ i → i < s + 4 → n.stack_array i ≡ m.stack_array i

machine_of : {m n : Machine} → ◌≡◌ {A = Run Machine (Unit {0})} (ok tt m) (ok tt n) → m ≡ n
machine_of {m} e = ap (state m) e
  where
    state : Machine → Run Machine (Unit {0}) → Machine
    state d (ok u m) = m
    state d (throw k x m) = d
    state d abort = d
    state d out_of_fuel = d

-- The machine that `push_cc` leaves.
abbrev pub pushed : ℕ → ℕ → ℕ → ℕ → Machine → Machine
pushed p1 p2 a c m =
    let s = m.stack in
    let slots =
      update
        (update (update (update (update m.stack_array (s - 1) cell_f) (s - 2) m.r0) (s - 3) m.r1)
          (s - 4) p2)
        (s - 5) c in
    record m { stack_array = slots; stack = s - 5; r0 = a; r1 = p1; r2 = p2 }

pub push_cc_ok :
    (p1 p2 a c : ℕ) (m : Machine) → 5 ≤ m.stack → push_cc p1 p2 a c m ≡ ok tt (pushed p1 p2 a c m)
unfolding push_cc gc_push_frame
push_cc_ok p1 p2 a c m room = let e : ltb m.stack gc_frame_size ≡ false = ground arith in rw e

pub pop :
    (p1 p2 a c : ℕ) (m n : Machine)
    → 5 ≤ m.stack
    → n.stack ≡ (pushed p1 p2 a c m).stack
    → SameFrame (m.stack - 5) (pushed p1 p2 a c m) n
    → gc_pop_frame n ≡ ok tt (record n { r0 = m.r0; r1 = m.r1; r2 = p2; r3 = c; stack = m.stack })
unfolding gc_pop_frame gc_peek_frame
pop p1 p2 a c m n room es same =
    let s = m.stack in
    let at3 : n.stack_array n.stack ≡ c = rw es (ground (arith, same (s - 5))) in
    let at2 : n.stack_array (n.stack + 1) ≡ p2 = rw es (ground (arith, same (s - 5 + 1))) in
    let at1 : n.stack_array (n.stack + 2) ≡ m.r1 = rw es (ground (arith, same (s - 5 + 2))) in
    let at0 : n.stack_array (n.stack + 3) ≡ m.r0 = rw es (ground (arith, same (s - 5 + 3))) in
    let up : n.stack + 5 ≡ m.stack = omega arith in
    λ i. ok tt (record n { stack = up i; r0 = at0 i; r1 = at1 i; r2 = at2 i; r3 = at3 i })

-- `push_cc p1 p2 a c` on a stack with room for a frame succeeds: the stack grows down by a frame,
-- `R1` is `p1` and `R0` is `a`, `R3` stays, the heap stays, and so do the slots in use.
pub push_cc-registers :
    (p1 p2 a c : ℕ) (m : Machine)
    → 5 ≤ m.stack
    → (m' : Machine) × (push_cc p1 p2 a c m ≡ ok tt m')
      × ((m'.r1 ≡ p1) × (m'.r0 ≡ a) × (m'.r3 ≡ m.r3) × (m'.heap ≡ m.heap))
      × (m'.stack + gc_frame_size ≡ m.stack)
      × SameFrom m.stack m m'
push_cc-registers p1 p2 a c m room = (
  pushed p1 p2 a c m,
  push_cc_ok p1 p2 a c m room,
  (refl, refl, refl, refl),
  omega arith,
  λ i le. ground arith,
)

-- What `push_cc` saves is given back: after `push_cc p1 p2 a c` on `m`, whatever runs and comes
-- back to the same stack index, with the four lowest slots as they were, finds by `gc_pop_frame`
-- the old `R0` and `R1`, `p2` in `R2`, the continuation `c` in `R3` and the stack index from before
-- the push; nothing else of its machine `n` changes.
pub gc_pop_frame-push_cc :
    (p1 p2 a c : ℕ) (m m' n : Machine)
    → 5 ≤ m.stack
    → push_cc p1 p2 a c m ≡ ok tt m'
    → n.stack ≡ m'.stack
    → SameFrame m'.stack m' n
    → gc_pop_frame n ≡ ok tt (record n { r0 = m.r0; r1 = m.r1; r2 = p2; r3 = c; stack = m.stack })
gc_pop_frame-push_cc p1 p2 a c m m' n room run es same =
    let e = machine_of (sym (push_cc_ok p1 p2 a c m room) ∙ run) in
    pop p1 p2 a c m n room (es ∙ ap (λ (q : Machine). q.stack) (sym e))
      (subst (λ (q : Machine). SameFrame q.stack q n) (sym e) same)
