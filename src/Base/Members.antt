-- ===== src/Base/Members.antt =====
-- The elements of a list, and lists of which no element occurs twice.
use Prim.Native.Nat.{suc}
use amprack_6_pc.Base.Lists.{length}
use mathlib.Core.Path.{◌≡◌, refl, ap, ◌∙◌}
use mathlib.Core.Logic.{◌≢◌, ◌↔◌, ◌⊎◌, inl, inr}
use mathlib.Core.List.{List, [], ◌∷◌, Permᴰ}
use mathlib.Core.List.Permᴰ.{nil, cons, swap, trans, symm}

module _ {A : Type 0} where
  abbrev pub In : A → List A → Type 0
  In x [] = ⊥
  In x (y ∷ ys) = (x ≡ y) ⊎ In x ys

  abbrev pub SameElements : List A → List A → Type 0
  SameElements xs ys = (x : A) → In x xs ↔ In x ys

  abbrev pub IsDistinct : List A → Type 0
  IsDistinct [] = Unit
  IsDistinct (x ∷ xs) = ((y : A) → In y xs → x ≢ y) × IsDistinct xs

-- What a rearranged list holds.
In-Permᴰ : {A : Type 0} (x : A) {xs ys : List A} → Permᴰ xs ys → In x xs → In x ys
In-Permᴰ x nil h = h
In-Permᴰ x (cons e p) (inl h) = inl (h ∙ e)
In-Permᴰ x (cons e p) (inr h) = inr (In-Permᴰ x p h)
In-Permᴰ x (swap e d) (inl h) = inr (inl (h ∙ e))
In-Permᴰ x (swap e d) (inr (inl h)) = inl (h ∙ d)
In-Permᴰ x (swap e d) (inr (inr h)) = inr (inr h)
In-Permᴰ x (trans p q) h = In-Permᴰ x q (In-Permᴰ x p h)

pub Permᴰ-SameElements : {A : Type 0} {xs ys : List A} → Permᴰ xs ys → SameElements xs ys
Permᴰ-SameElements p x = (In-Permᴰ x p, In-Permᴰ x (symm p))

pub length-Permᴰ : {A : Type 0} {xs ys : List A} → Permᴰ xs ys → length xs ≡ length ys
length-Permᴰ nil = refl
length-Permᴰ (cons e p) = ap suc (length-Permᴰ p)
length-Permᴰ (swap {l = l} e d) = refl
length-Permᴰ (trans p q) = length-Permᴰ p ∙ length-Permᴰ q
