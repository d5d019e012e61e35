-- ===== src/Gc/Registers.antt =====
-- The roots of a collection in `gc_` of src/gc.c: the stack and the registers.
use mes.Base.{
  ℕ, zero, suc, ◌+◌, ◌≤◌, ◌<◌, ◌≡◌, refl, sym, ◌∙◌, subst, inl, inr, arith, ◌==◌, ==_iff,
  Bool-cases,
}
use mes.Gc.{gc_copy}
use mes.Gc.Drive.{copy_stack, copy_roots}
use mes.Gc.Roots.{Filled, IsRoot, Hearts, Hearts-trans, IsCopy, IsCopy-Hearts, gc_copy-Copied}
use mes.Gc.Snapshot.{Snapshot, IsWellFormed}
use mes.Heap.{Heap, Run, ok, and_then, and_then-ok, update}
use mes.Machine.{Machine, on_heap, on_heap-ok}

-- A run of `copy_stack` for `k` slots from `i` on.
pub record Slots (g : Snapshot) (n k i : ℕ) (m : Machine) (run : Run Machine (Unit {0}))
    : Type 0 where
  pub heap : Heap
  pub slots : ℕ → ℕ
  pub returns : run ≡ ok tt (record m { heap = heap; stack_array = slots })
  pub filled : Filled g n heap
  pub copies : (j : ℕ) → i ≤ j → j < i + k → IsCopy heap (m.stack_array j) (slots j)
  pub below : (j : ℕ) → j < i → slots j ≡ m.stack_array j
  pub hearts : Hearts g m.heap heap

copied_then :
    (p : ℕ) (m : Machine) (k : ℕ → Machine → Run Machine (Unit {0})) {a : ℕ} {h : Heap}
    → gc_copy p m.heap ≡ ok a h
    → and_then (on_heap (gc_copy p) m) k ≡ k a (record m { heap = h })
copied_then p m k e = and_then-ok (on_heap (gc_copy p)) k (on_heap-ok (gc_copy p) m e)

slot_step :
    (k i : ℕ) (m : Machine) (a : ℕ) (h : Heap)
    → gc_copy (m.stack_array i) m.heap ≡ ok a h
    → copy_stack (suc k) i m
      ≡ copy_stack k (i + 1) (record m { heap = h; stack_array = update m.stack_array i a })
unfolding copy_stack
slot_step k i m a h e = copied_then (m.stack_array i) m _ e

pub copy_stack-Slots :
    (k : ℕ) (g : Snapshot) (n i : ℕ) (m : Machine)
    → IsWellFormed g
    → Filled g n m.heap
    → ((j : ℕ) → i ≤ j → j < i + k → IsRoot g (m.stack_array j))
    → Slots g n k i m (copy_stack k i m)
unfolding copy_stack
copy_stack-Slots zero g n i m wf f roots = record {
  heap = m.heap;
  slots = m.stack_array;
  returns = refl;
  filled = f;
  copies = λ j le lt. absurd (omega arith);
  below = λ j lt. refl;
  hearts = λ q l e. refl;
}
copy_stack-Slots (suc k) g n i m wf f roots =
    let first = roots i (omega arith) (omega arith) in
    let c = gc_copy-Copied g n m.heap (m.stack_array i) wf f first in
    let slots = update m.stack_array i c.at in
    let m' = record m { heap = c.heap; stack_array = slots } in
    let later : (j : ℕ) → i + 1 ≤ j → slots j ≡ m.stack_array j = λ j le. ground arith in
    let r =
      copy_stack-Slots k g n (i + 1) m' wf c.filled
        (λ j le lt. subst (IsRoot g) (sym (later j le)) (roots j (omega arith) (omega arith))) in
    let here : r.slots i ≡ c.at = r.below i (omega arith) ∙ ground arith in
    record {
      heap = r.heap;
      slots = r.slots;
      returns = slot_step k i m c.at c.heap c.returns ∙ r.returns;
      filled = r.filled;
      copies = λ j le lt. elim (Bool-cases (j == i)) [
        | inl y ↦
            subst (λ q. IsCopy r.heap (m.stack_array q) (r.slots q)) (sym ((==_iff j i).0 y))
              (subst (IsCopy r.heap (m.stack_array i)) (sym here)
                (IsCopy-Hearts g c.heap r.heap first r.hearts c.copy))
        | inr z ↦
            let le' : i + 1 ≤ j = ground arith in
            subst (λ q. IsCopy r.heap q (r.slots j)) (later j le') (r.copies j le' (omega arith))
      ];
      below = λ j lt. r.below j (omega arith) ∙ ground arith;
      hearts = Hearts-trans g m.heap c.heap r.heap c.hearts r.hearts;
    }

-- A run of `copy_roots`: each of the registers holds the address of the copy.
pub record Registers (g : Snapshot) (n : ℕ) (m : Machine) (run : Run Machine (Unit {0}))
    : Type 0 where
  pub machine : Machine
  pub returns : run ≡ ok tt machine
  pub stack_at : machine.stack ≡ m.stack
  pub stack_size_at : machine.stack_size ≡ m.stack_size
  pub stack_array_at : machine.stack_array ≡ m.stack_array
  pub filled : Filled g n machine.heap
  pub symbols : IsCopy machine.heap m.symbols machine.symbols
  pub macros : IsCopy machine.heap m.macros machine.macros
  pub ports : IsCopy machine.heap m.ports machine.ports
  pub hash_table_type : IsCopy machine.heap m.hash_table_type machine.hash_table_type
  pub variable_type : IsCopy machine.heap m.variable_type machine.variable_type
  pub m0 : IsCopy machine.heap m.m0 machine.m0
  pub m1 : IsCopy machine.heap m.m1 machine.m1
  pub hearts : Hearts g m.heap machine.heap

-- The registers that `gc_` copies are objects.
pub record RootRegisters (g : Snapshot) (m : Machine) : Type 0 where
  pub symbols : IsRoot g m.symbols
  pub macros : IsRoot g m.macros
  pub ports : IsRoot g m.ports
  pub hash_table_type : IsRoot g m.hash_table_type
  pub variable_type : IsRoot g m.variable_type
  pub m0 : IsRoot g m.m0
  pub m1 : IsRoot g m.m1

pub copy_roots-Registers :
    (g : Snapshot) (n : ℕ) (m : Machine)
    → IsWellFormed g
    → Filled g n m.heap
    → RootRegisters g m
    → Registers g n m (copy_roots m)
unfolding copy_roots
copy_roots-Registers g n m wf f r =
    let c1 = gc_copy-Copied g n m.heap m.symbols wf f r.symbols in
    let c2 = gc_copy-Copied g n c1.heap m.macros wf c1.filled r.macros in
    let c3 = gc_copy-Copied g n c2.heap m.ports wf c2.filled r.ports in
    let c4 = gc_copy-Copied g n c3.heap m.hash_table_type wf c3.filled r.hash_table_type in
    let c5 = gc_copy-Copied g n c4.heap m.variable_type wf c4.filled r.variable_type in
    let c6 = gc_copy-Copied g n c5.heap m.m0 wf c5.filled r.m0 in
    let c7 = gc_copy-Copied g n c6.heap m.m1 wf c6.filled r.m1 in
    let k6 : Hearts g c6.heap c7.heap = c7.hearts in
    let k5 = Hearts-trans g c5.heap c6.heap c7.heap c6.hearts k6 in
    let k4 = Hearts-trans g c4.heap c5.heap c7.heap c5.hearts k5 in
    let k3 = Hearts-trans g c3.heap c4.heap c7.heap c4.hearts k4 in
    let k2 = Hearts-trans g c2.heap c3.heap c7.heap c3.hearts k3 in
    let k1 = Hearts-trans g c1.heap c2.heap c7.heap c2.hearts k2 in
    record {
      machine = record m {
        heap = c7.heap;
        symbols = c1.at;
        macros = c2.at;
        ports = c3.at;
        hash_table_type = c4.at;
        variable_type = c5.at;
        m0 = c6.at;
        m1 = c7.at;
      };
      returns =
          copied_then m.symbols m _ c1.returns
          ∙ copied_then m.macros (record m { heap = c1.heap }) _ c2.returns
          ∙ copied_then m.ports (record m { heap = c2.heap }) _ c3.returns
          ∙ copied_then m.hash_table_type (record m { heap = c3.heap }) _ c4.returns
          ∙ copied_then m.variable_type (record m { heap = c4.heap }) _ c5.returns
          ∙ copied_then m.m0 (record m { heap = c5.heap }) _ c6.returns
          ∙ copied_then m.m1 (record m { heap = c6.heap }) _ c7.returns;
      stack_at = refl;
      stack_size_at = refl;
      stack_array_at = refl;
      filled = c7.filled;
      symbols = IsCopy-Hearts g c1.heap c7.heap r.symbols k1 c1.copy;
      macros = IsCopy-Hearts g c2.heap c7.heap r.macros k2 c2.copy;
      ports = IsCopy-Hearts g c3.heap c7.heap r.ports k3 c3.copy;
      hash_table_type = IsCopy-Hearts g c4.heap c7.heap r.hash_table_type k4 c4.copy;
      variable_type = IsCopy-Hearts g c5.heap c7.heap r.variable_type k5 c5.copy;
      m0 = IsCopy-Hearts g c6.heap c7.heap r.m0 k6 c6.copy;
      m1 = c7.copy;
      hearts = Hearts-trans g m.heap c1.heap c7.heap c1.hearts k1;
    }
