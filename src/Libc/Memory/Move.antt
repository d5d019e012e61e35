-- ===== src/Libc/Memory/Move.antt =====
-- `memmove` and `memset` on blocks that may overlap.
use mes.Base.{
  ℕ, zero, suc, ◌+◌, ◌-◌, ◌≤◌, ◌≡◌, refl, ◌∙◌, inl, inr, true, false, ◌&&◌, arith, ltb, leb, ◌==◌,
  if◌then◌else◌, Bool-cases,
}
use mes.Heap.{update}
use mes.Libc.Memory.{memcpy, copy_down, memmove}

-- The memory in which the `n` bytes at `dest` are what `m` holds at `src`.
abbrev pub moved : ℕ → (ℕ → ℕ) → ℕ → ℕ → ℕ → ℕ
moved n m dest src q = if leb dest q && ltb q (dest + n) then m (src + (q - dest)) else m q

memcpy_up :
    (n : ℕ) (m : ℕ → ℕ) (dest src q : ℕ) → dest ≤ src → memcpy n m dest src q ≡ moved n m dest src q
unfolding memcpy
memcpy_up zero m dest src q le = ground arith
memcpy_up (suc n) m dest src q le =
    let ih = memcpy_up n (update m dest (m src)) (dest + 1) (src + 1) q (omega arith) in
    elim (Bool-cases (leb (dest + 1) q && ltb q (dest + 1 + n))) [
      | inl y ↦
          let at : src + 1 + (q - (dest + 1)) ≡ src + (q - dest) = ground arith in
          let apart : (dest == src + (q - dest)) ≡ false = ground arith in
          let inside : (leb dest q && ltb q (dest + suc n)) ≡ true = ground arith in
          ih ∙ rw (y, at, apart, inside) refl
      | inr y ↦ elim (Bool-cases (dest == q)) [
        | inl z ↦
            let at : src + (q - dest) ≡ src = ground arith in
            let inside : (leb dest q && ltb q (dest + suc n)) ≡ true = ground arith in
            ih ∙ rw (y, z, at, inside) refl
        | inr z ↦
            let outside : (leb dest q && ltb q (dest + suc n)) ≡ false = ground arith in
            ih ∙ rw (y, z, outside) refl
      ]
    ]

copy_down_lem :
    (n : ℕ) (m : ℕ → ℕ) (dest src q : ℕ)
    → src ≤ dest
    → copy_down n m dest src q ≡ moved n m dest src q
unfolding copy_down
copy_down_lem zero m dest src q le = ground arith
copy_down_lem (suc n) m dest src q le =
    let ih = copy_down_lem n (update m (dest + n) (m (src + n))) dest src q le in
    elim (Bool-cases (leb dest q && ltb q (dest + n))) [
      | inl y ↦
          let apart : (dest + n == src + (q - dest)) ≡ false = ground arith in
          let inside : (leb dest q && ltb q (dest + suc n)) ≡ true = ground arith in
          ih ∙ rw (y, apart, inside) refl
      | inr y ↦ elim (Bool-cases (dest + n == q)) [
        | inl z ↦
            let at : src + (q - dest) ≡ src + n = ground arith in
            let inside : (leb dest q && ltb q (dest + suc n)) ≡ true = ground arith in
            ih ∙ rw (y, z, at, inside) refl
        | inr z ↦
            let outside : (leb dest q && ltb q (dest + suc n)) ≡ false = ground arith in
            ih ∙ rw (y, z, outside) refl
      ]
    ]

-- Wherever the blocks lie, `memmove` of `n` bytes leaves at `dest` what stood at `src` before, and
-- every other byte as it was.
pub memmove-moved :
    (n : ℕ) (m : ℕ → ℕ) (dest src q : ℕ) → memmove n m dest src q ≡ moved n m dest src q
unfolding memmove
memmove-moved n m dest src q = elim (Bool-cases (ltb dest src)) [
  | inl y ↦ rw y (memcpy_up n m dest src q (ground arith))
  | inr y ↦ rw y (copy_down_lem n m dest src q (ground arith))
]
