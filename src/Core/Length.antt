-- ===== src/Core/Length.antt =====
-- `length__` of src/core.c on every chain of pairs, proper or not.
use mes.Base.{ℕ, zero, suc, ◌+◌, ◌<◌, ◌≡◌, refl, ◌≢◌, ◌⊎◌, arith, ◌==◌, if◌then◌else◌, minus_one}
use mes.Core.{length_loop, list_length}
use mes.Heap.{Heap, ok, out_of_fuel, type_at, cdr_at}
use mes.Heap.Const.{t_pair, cell_nil}

-- The `cdr`s of `n` pairs lead from `p` to `q`.
abbrev pub Chain : Heap → ℕ → ℕ → ℕ → Type 0
Chain h q zero p = p ≡ q
Chain h q (suc n) p = (p ≢ cell_nil) × (type_at h p ≡ t_pair) × Chain h q n (cdr_at h p)

length_loop_lem :
    (h : Heap) (q : ℕ) (n k p m : ℕ)
    → Chain h q n p
    → (q ≡ cell_nil) ⊎ (type_at h q ≢ t_pair)
    → n < k
    → length_loop k p m h ≡ ok (if q == cell_nil then m + n else minus_one) h
unfolding length_loop
length_loop_lem h q n zero p m c e lt = absurd (omega arith)
length_loop_lem h q zero (suc k) p m c e lt = ground arith
length_loop_lem h q (suc n) (suc k) p m (a, t, c) e lt =
    ground (arith, length_loop_lem h q n k (cdr_at h p) (m + 1) c e (omega arith))

-- With enough rounds `length__` returns on every chain of `n` pairs that ends: the count if it
-- ends in `()`, and -1 if it ends in another object that is no pair. The heap stays the same.
pub list_length-Chain :
    (h : Heap) (q n k p : ℕ)
    → Chain h q n p
    → (q ≡ cell_nil) ⊎ (type_at h q ≢ t_pair)
    → n < k
    → list_length k p h ≡ ok (if q == cell_nil then n else minus_one) h
unfolding list_length
list_length-Chain h q n k p c e lt = ground (arith, length_loop_lem h q n k p 0 c e lt)

loop_cycle :
    (h : Heap) (p : ℕ)
    → p ≢ cell_nil
    → type_at h p ≡ t_pair
    → cdr_at h p ≡ p
    → (k m : ℕ) → length_loop k p m h ≡ out_of_fuel
unfolding length_loop
loop_cycle h p ne t e zero m = refl
loop_cycle h p ne t e (suc k) m = ground (arith, loop_cycle h p ne t e k (m + 1))

-- On a cycle no number of rounds is enough.
pub list_length-cycle :
    (h : Heap) (k p : ℕ)
    → p ≢ cell_nil
    → type_at h p ≡ t_pair
    → cdr_at h p ≡ p
    → list_length k p h ≡ out_of_fuel
unfolding list_length
list_length-cycle h k p ne t e = loop_cycle h p ne t e k 0
