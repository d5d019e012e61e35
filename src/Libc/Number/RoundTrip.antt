-- ===== src/Libc/Number/RoundTrip.antt =====
-- What `ntoab` prints, `abtol` reads.
use native.Mathlib.Nat.{mod-lt, div-add-mod, div-le_self}
use mes.Base.{
  ℕ, zero, suc, ◌+◌, ◌-◌, ◌*◌, ◌/◌, ◌%◌, ◌^◌, ◌≤◌, ◌<◌, ◌≡◌, refl, ap, ◌∙◌, ◌⊎◌, inl, inr, Bool,
  true, false, some, List, [], ◌∷◌, arith, ltb, ◌==◌, if◌then◌else◌, Bool-cases, is_negative,
  add_word, neg_word,
}
use mes.Libc.Ctype.{isspace, isnumber}
use mes.Libc.Number.{
  digit_char, ntoab_loop, put_sign, ntoab, int_mod, int_to_long, digit_base, abtol_loop,
  skip_spaces, skip_char, abtol,
}
use mes.Libc.Number.Print.{ntoab_loop_total, ntoab_loop_head}
use mes.Math.{plus, minus}

-- The bases that both know.
abbrev pub IsBase : ℕ → Type 0
IsBase b = (b ≡ 8) ⊎ ((b ≡ 10) ⊎ (b ≡ 16))

abbrev value_step : ℕ → ℕ → ℕ → ℕ
value_step i base c = (i * base + (int_mod + c - digit_base c)) % int_mod

-- A digit that was printed is read as its value.
digit_read :
    (i b d : ℕ)
    → IsBase b
    → d < b
    → i * b + d < int_mod
    → (isnumber (digit_char d) b ≡ some true) × (value_step i b (digit_char d) ≡ i * b + d)
unfolding isnumber digit_char digit_base
digit_read i b d (inl e) lt small = ground arith
digit_read i b d (inr (inl e)) lt small = ground arith
digit_read i b d (inr (inr e)) lt small = ground arith

digit_step :
    (i b d : ℕ) (p : List ℕ)
    → IsBase b
    → d < b
    → i * b + d < int_mod
    → abtol_loop b i (digit_char d ∷ p) ≡ abtol_loop b (i * b + d) p
unfolding abtol_loop
digit_step i b d p base lt small = let (known, v) = digit_read i b d base lt small in rw (known, v)

base_pos : (b : ℕ) → IsBase b → 8 ≤ b
base_pos b (inl e) = omega arith
base_pos b (inr (inl e)) = omega arith
base_pos b (inr (inr e)) = omega arith

read_printed :
    (k u b : ℕ) (p ds : List ℕ)
    → IsBase b
    → u < int_mod
    → ntoab_loop k u b p ≡ some ds
    → abtol_loop b 0 ds ≡ abtol_loop b u p
unfolding ntoab_loop
read_printed zero u b p ds base lt e = cc
read_printed (suc k) u b p ds base lt e =
    let pos : 0 < b = omega (arith, base_pos b base) in
    let digit : u % b < b = mod-lt u pos in
    let whole : u / b * b + u % b ≡ u = omega (arith, div-add-mod u b) in
    let below : u / b ≤ u = div-le_self u b in
    let step =
      digit_step (u / b) b (u % b) p base digit (omega (arith, whole))
      ∙ ap (λ (t : ℕ). abtol_loop b t p) whole in
    elim (Bool-cases (u / b == 0)) [
      | inl y ↦
          let z : u / b ≡ 0 = ground arith in
          let f : digit_char (u % b) ∷ p ≡ ds = cc (rw y at e) in rw (← f) (rw z at step)
      | inr y ↦
          read_printed k (u / b) b (digit_char (u % b) ∷ p) ds base (omega arith) (rw y at e) ∙ step
    ]

-- The first digit is no space and no sign.
digit_first :
    (b d : ℕ)
    → IsBase b
    → d < b
    → (isspace (digit_char d) ≡ false)
      × ((digit_char d == b'+') ≡ false)
      × ((digit_char d == b'-') ≡ false)
unfolding isspace digit_char
digit_first b d (inl e) lt = ground arith
digit_first b d (inr (inl e)) lt = ground arith
digit_first b d (inr (inr e)) lt = ground arith

digit_nonzero : (d : ℕ) → 0 < d → (digit_char d == b'0') ≡ false
unfolding digit_char
digit_nonzero d pos = ground arith

base_nonzero : (b : ℕ) → IsBase b → (if b == 0 then 10 else b) ≡ b
base_nonzero b base = let e : (b == 0) ≡ false = ground (arith, base_pos b base) in rw e

read_end : (b u : ℕ) → abtol_loop b u [] ≡ some (u, [])
unfolding abtol_loop
read_end b u = refl

-- `abtol` on the digits of `u`, with a minus sign or without.
abtol_digits :
    (b u d : ℕ) (s : List ℕ) (k : ℕ) (sign : Bool)
    → IsBase b
    → d < b
    → u < int_mod
    → (sign ≡ true → 0 < d)
    → ntoab_loop k u b [] ≡ some (digit_char d ∷ s)
    → abtol (put_sign sign (digit_char d ∷ s)) b
      ≡ some (int_to_long (if sign then (int_mod - u) % int_mod else u), [])
unfolding abtol skip_spaces skip_char put_sign abtol_loop isspace
abtol_digits b u d s k true base lt small pos e =
    let (space, plus, minus) = digit_first b d base lt in
    let r : abtol_loop b 0 (digit_char d ∷ s) ≡ some (u, []) =
      read_printed k u b [] (digit_char d ∷ s) base small e ∙ read_end b u in
    simp (digit_nonzero d (pos refl), base_nonzero b base, r)
abtol_digits b u d s k false base lt small pos e =
    let (space, plus, minus) = digit_first b d base lt in
    let r : abtol_loop b 0 (digit_char d ∷ s) ≡ some (u, []) =
      read_printed k u b [] (digit_char d ∷ s) base small e ∙ read_end b u in
    simp (space, plus, minus, base_nonzero b base, r)

-- The word read as a `long` fits an `int`.
abbrev pub FitsInt : ℕ → Type 0
FitsInt x = (x < 2 ^ 31) ⊎ ((2 ^ 64 - 2 ^ 31 ≤ x) × (x < 2 ^ 64))

abbrev magnitude : Bool → ℕ → ℕ
magnitude sign x = if sign then add_word (neg_word (add_word x 1)) 1 else x

magnitude_lem :
    (x : ℕ)
    → FitsInt x
    → (magnitude (is_negative x) x ≤ 2 ^ 31)
      × (is_negative x ≡ true → 0 < magnitude (is_negative x) x)
      × (int_to_long (
            if is_negative x
            then (int_mod - magnitude (is_negative x) x) % int_mod
            else magnitude (is_negative x) x)
          ≡ x)
magnitude_lem x (inl h) = ground arith
magnitude_lem x (inr h) = ground arith

-- Every `long` that fits an `int`, printed by `ntoab` with its sign in base 8, 10 or 16, is read
-- back by `abtol` in that base, to the end of the text.
pub abtol-ntoab :
    (x b : ℕ)
    → IsBase b
    → FitsInt x
    → (text : List ℕ) × (ntoab x b true ≡ some text) × (abtol text b ≡ some (x, []))
unfolding ntoab
abtol-ntoab x b base fits =
    let (le, pos, back) = magnitude_lem x fits in
    let sign = is_negative x in
    let u = magnitude sign x in
    let (ds, e, _) = ntoab_loop_total 21 23 u b [] (omega arith) (base_pos b base) (omega arith) in
    let (d, s, f, lt, nz) = ntoab_loop_head 23 u b [] ds (omega (arith, base_pos b base)) e in
    let e' : ntoab_loop 23 u b [] ≡ some (digit_char d ∷ s) = e ∙ ap some f in
    let small : ltb b 8 ≡ false = ground (arith, base_pos b base) in
    (
      put_sign sign (digit_char d ∷ s),
      rw (small, e'),
      abtol_digits b u d s 23 sign base lt (omega arith) (λ y. nz (pos y)) e'
          ∙ ap (λ (t : ℕ). some (t, [])) back,
    )
