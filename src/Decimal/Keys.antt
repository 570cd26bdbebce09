-- ===== src/Decimal/Keys.antt =====
-- engine.cc and presets.cc: the keys are different, and up to ten have the order of the indices.
use amprack_6_pc.Base.{
  ℕ, ◌+◌, ◌≤◌, ◌<◌, zero, suc, ◌-◌, ◌*◌, ◌/◌, ◌%◌, ◌≡◌, ◌≢◌, ◌∙◌, sym, inl, inr, Bool-cases, In,
  IsDistinct, refl, ap, ◌==◌, ltb, lt→ltb, Bool, true, false, ◌&&◌, ◌||◌, List, [], ◌∷◌, map, arith,
  length,
}
use amprack_6_pc.Files.{Bytes}
use amprack_6_pc.Decimal.{digits, key_of, keyed}

-- `std::less` on texts.
unfoldable pub lt_bytes : Bytes → Bytes → Bool
lt_bytes [] [] = false
lt_bytes [] (y ∷ ys) = true
lt_bytes (x ∷ xs) [] = false
lt_bytes (x ∷ xs) (y ∷ ys) = ltb x y || (x == y && lt_bytes xs ys)

abbrev pub Increasing : {J : Type 0} → List (Bytes × J) → Type 0
Increasing [] = Unit
Increasing (x ∷ []) = Unit
Increasing (x ∷ y ∷ rest) = (lt_bytes x.0 y.0 ≡ true) × Increasing (y ∷ rest)

key_of-digit : (i : ℕ) → i < 10 → key_of i ≡ (48 + i) ∷ []
unfolding key_of digits
key_of-digit i h = rw (lt→ltb i 10 h) refl

key_of-step : (i : ℕ) → i + 1 < 10 → lt_bytes (key_of i) (key_of (i + 1)) ≡ true
unfolding lt_bytes
key_of-step i h =
    rw
      (
        key_of-digit i (omega arith),
        key_of-digit (i + 1) h,
        lt→ltb (48 + i) (48 + (i + 1)) (omega arith),
      )
      refl

-- Up to ten plugins have increasing keys.
pub keyed-Increasing :
    {J : Type 0} (i : ℕ) (ps : List J) → i + length ps ≤ 10 → Increasing (keyed i ps)
keyed-Increasing i [] h = tt
keyed-Increasing i (p ∷ []) h = tt
keyed-Increasing i (p ∷ q ∷ ps) h =
    (key_of-step i (omega arith), keyed-Increasing (i + 1) (q ∷ ps) (omega arith))

pub keyed-values : {J : Type 0} (i : ℕ) (ps : List J) → map (λ x. x.1) (keyed i ps) ≡ ps
keyed-values i [] = refl
keyed-values i (p ∷ ps) = ap (◌∷◌ p) (keyed-values (i + 1) ps)

-- The number that a text of digits stands for, behind the digits of `acc`.
abbrev pub value_of : ℕ → Bytes → ℕ
value_of acc [] = acc
value_of acc (c ∷ cs) = value_of (acc * 10 + (c - 48)) cs

digits-value :
    (fuel n : ℕ) (rest : Bytes) → n < fuel → value_of 0 (digits fuel n rest) ≡ value_of n rest
unfolding digits
digits-value zero n rest h = absurd (omega arith)
digits-value (suc fuel) n rest h = elim (Bool-cases (ltb n 10)) [
  | inl small ↦
      rw small (ap (λ a. value_of a rest) {x = 0 * 10 + (48 + n - 48)} {y = n} (omega arith))
  | inr large ↦ rw large (
      digits-value fuel (n / 10) ((48 + n % 10) ∷ rest) (ground arith)
      ∙ ap (λ a. value_of a rest) {x = n / 10 * 10 + (48 + n % 10 - 48)} {y = n} (omega arith))
]

-- The text of a number stands for the number.
pub key_of-value : (n : ℕ) → value_of 0 (key_of n) ≡ n
unfolding key_of
key_of-value n = digits-value (suc n) n [] (omega arith)

keyed-later :
    {J : Type 0} (i n : ℕ) (ps : List J) (k : Bytes)
    → n < i
    → In k (map (λ x. x.0) (keyed i ps))
    → key_of n ≢ k
keyed-later i n [] k h there = absurd there
keyed-later i n (p ∷ ps) k h (inl e) = λ same.
    absurd (omega (arith, sym (key_of-value n) ∙ ap (value_of 0) (same ∙ e) ∙ key_of-value i))
keyed-later i n (p ∷ ps) k h (inr there) = keyed-later (i + 1) n ps k (omega arith) there

pub keyed-IsDistinct : {J : Type 0} (i : ℕ) (ps : List J) → IsDistinct (map (λ x. x.0) (keyed i ps))
keyed-IsDistinct i [] = tt
keyed-IsDistinct i (p ∷ ps) =
    (λ k there. keyed-later (i + 1) i ps k (omega arith) there, keyed-IsDistinct (i + 1) ps)
