-- ===== src/Rack/Chooser/Search.antt =====
-- rack.cc: what `do_search` finds in a name, and which numbers `show_only_categories` matches.
use amprack_6_pc.Base.{
  ℕ, ◌≡◌, ◌↔◌, ◌⊎◌, refl, sym, ap, ◌∙◌, arith, Bool, true, false, Bool-cases, ◌||◌, ◌==◌, ==→eq,
  eq→==, inl, inr, List, [], ◌∷◌, ◌++◌, if◌then◌else◌, In,
}
use amprack_6_pc.Decimal.{key_of}
use amprack_6_pc.Decimal.Keys.{key_of-value, value_of}
use amprack_6_pc.Files.{Bytes, eq_bytes}
use amprack_6_pc.Files.Copies.{eq_bytes_iff}
use amprack_6_pc.Rack.Chooser.{is_prefix, contains, matches}

-- A text stands somewhere in another.
abbrev pub Within : Bytes → Bytes → Type 0
Within str hay = (before : Bytes) × (after : Bytes) × (hay ≡ before ++ (str ++ after))

is_prefix-append : (xs after : Bytes) → is_prefix xs (xs ++ after) ≡ true
unfolding is_prefix
is_prefix-append [] after = refl
is_prefix-append (x ∷ xs) after = rw (eq→== x x refl) (is_prefix-append xs after)

is_prefix-rest : (xs ys : Bytes) → is_prefix xs ys ≡ true → (after : Bytes) × (ys ≡ xs ++ after)
unfolding is_prefix
is_prefix-rest [] ys e = (ys, refl)
is_prefix-rest (x ∷ xs) [] e = cc
is_prefix-rest (x ∷ xs) (y ∷ ys) e = elim (Bool-cases (x == y)) [
  | inl same ↦
      let (after, h) = is_prefix-rest xs ys (ground (arith, same)) in
      (after, ap (λ z. z ∷ ys) (sym (==→eq x y same)) ∙ ap (◌∷◌ x) h)
  | inr other ↦ absurd (ground (arith, other))
]

contains-Within : (str hay : Bytes) → contains str hay ≡ true → Within str hay
unfolding contains
contains-Within str [] e = let (after, h) = is_prefix-rest str [] e in ([], after, h)
contains-Within str (y ∷ ys) e = elim (Bool-cases (is_prefix str (y ∷ ys))) [
  | inl here ↦ let (after, h) = is_prefix-rest str (y ∷ ys) here in ([], after, h)
  | inr later ↦
      let (before, after, h) = contains-Within str ys (ground (arith, later)) in
      (y ∷ before, after, ap (◌∷◌ y) h)
]

contains-append : (before str after : Bytes) → contains str (before ++ (str ++ after)) ≡ true
unfolding contains
contains-append [] [] [] = refl
contains-append [] [] (y ∷ after) = refl
contains-append [] (x ∷ str) after =
    ap (λ b. b || contains (x ∷ str) (str ++ after)) (is_prefix-append (x ∷ str) after)
contains-append (b ∷ before) str after =
    elim (Bool-cases (is_prefix str (b ∷ (before ++ (str ++ after))))) [
      | inl here ↦ rw here refl
      | inr later ↦ rw later (contains-append before str after)
    ]

-- The search finds a text exactly where it stands in the name.
pub contains_iff : (str hay : Bytes) → (contains str hay ≡ true) ↔ Within str hay
contains_iff str hay = (
  contains-Within str hay,
  λ (before, after, h). ap (contains str) h ∙ contains-append before str after,
)

matches-key : (p n : ℕ) → (eq_bytes (key_of p) (key_of n) ≡ true) ↔ (p ≡ n)
matches-key p n =
    let bytes = eq_bytes_iff (key_of p) (key_of n) in
    (
      λ e. sym (key_of-value p) ∙ ap (value_of 0) (bytes.0 e) ∙ key_of-value n,
      λ e. bytes.1 (ap key_of e),
    )

matches-In :
    (n : ℕ) (ps : List ℕ) (visible : Bool)
    → (matches (key_of n) ps visible ≡ true) ↔ ((visible ≡ true) ⊎ In n ps)
unfolding matches
matches-In n [] visible = (λ e. inl e, λ h. elim h [ inl e ↦ e | inr there ↦ absurd there ])
matches-In n (p ∷ ps) visible = elim (Bool-cases (eq_bytes (key_of p) (key_of n))) [
  | inl same ↦
      let rest = matches-In n ps true in
      (λ e. inr (inl (sym ((matches-key p n).0 same))), λ h. rw same (rest.1 (inl refl)))
  | inr other ↦
      let rest = matches-In n ps visible in
      (
        λ e.
            elim (rest.0
              (ap (λ b. matches (key_of n) ps (if b then true else visible)) (sym other) ∙ e)) [
                | inl v ↦ inl v
                | inr there ↦ inr (inr there)
              ],
        λ h. rw other (elim h [
          | inl v ↦ rest.1 (inl v)
          | inr (inr there) ↦ rest.1 (inr there)
          | inr (inl e) ↦ let same = (matches-key p n).1 (sym e) in cc
        ]),
      )
]

-- A box with the text of a number as its name matches exactly if the number is in the list.
pub matches_iff : (n : ℕ) (ps : List ℕ) → (matches (key_of n) ps false ≡ true) ↔ In n ps
matches_iff n ps =
    let general = matches-In n ps false in
    (
      λ e. elim (general.0 e) [ inl e' ↦ absurd (ground (arith, e')) | inr there ↦ there ],
      λ there. general.1 (inr there),
    )
