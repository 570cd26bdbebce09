-- ===== src/Urid/Interning.antt =====
-- Plugin.cpp: the numbers that `simple_map` gives.
use Prim.Native.String.{String}
use text.Mathlib.Text.{◌==◌}
use text.Mathlib.TextEquality.{eq_iff}
use native.Mathlib.Decide.{dec_lt}
use mathlib.Core.Path.{subst}
use amprack_6_pc.Base.{
  ℕ, zero, suc, ◌+◌, ◌-◌, ◌≤◌, ◌<◌, ◌≡◌, ◌≢◌, ◌↔◌, ◌⊎◌, inl, inr, refl, sym, ap, ◌∙◌, arith, none,
  some, List, [], ◌∷◌, ◌++◌, length, length-append, get_elem?, get_elem?-append_right, append_assoc,
  append-nil, Bool-cases, Option-cases, eq_of_some-eq, lt→ltb, le→ltb,
}
use amprack_6_pc.Urid.{find_uri, simple_map, map_all}

pub find_uri-found :
    (us : List String) (i id : ℕ) (uri : String)
    → find_uri us i uri ≡ some id
    → (k : ℕ) × (id ≡ i + k + 1) × (get_elem? us k ≡ some uri)
unfolding find_uri
find_uri-found [] i id uri e = ground arith
find_uri-found (u ∷ us) i id uri e = elim (Bool-cases (u == uri)) [
  | inl same ↦ (0, ground arith, ap some ((eq_iff u uri).0 same))
  | inr other ↦
      let (k, at, found) = find_uri-found us (i + 1) id uri (ground arith) in
      (suc k, omega (arith, at), found)
]

find_uri-missing :
    (us : List String) (i : ℕ) (uri : String)
    → find_uri us i uri ≡ none
    → (k : ℕ) → get_elem? us k ≢ some uri
unfolding find_uri
find_uri-missing [] i uri e k there = ground arith
find_uri-missing (u ∷ us) i uri e zero there =
    ground (arith, (eq_iff u uri).1 (eq_of_some-eq there))
find_uri-missing (u ∷ us) i uri e (suc k) there = elim (Bool-cases (u == uri)) [
  | inl same ↦ ground (arith, same)
  | inr other ↦ find_uri-missing us (i + 1) uri (ground (arith, other)) k there
]

-- What a call can do: it finds the text at index `k`, it appends it, or the table is full.
data Mapped (us : List String) (uri : String) (id : ℕ) (t : List String) : Type 0 where
  finds : (k : ℕ) → id ≡ suc k → t ≡ us → get_elem? us k ≡ some uri → Mapped us uri id t
  adds :
      id ≡ suc (length us)
      → t ≡ us ++ uri ∷ []
      → length us < 1000
      → ((k : ℕ) → get_elem? us k ≢ some uri)
      → Mapped us uri id t
  refuses :
      id ≡ 0
      → t ≡ us
      → 1000 ≤ length us
      → ((k : ℕ) → get_elem? us k ≢ some uri)
      → Mapped us uri id t

simple_map-Mapped :
    (us : List String) (uri : String) → Mapped us uri (simple_map us uri).0 (simple_map us uri).1
unfolding simple_map
simple_map-Mapped us uri = elim (Option-cases (find_uri us 0 uri)) [
  | inl missing ↦
      rw (missing, simple_map)
        (elim (dec_lt (length us) 1000) [
          | yes room ↦
              rw (lt→ltb (length us) 1000 room)
                (adds (omega arith) refl room (find_uri-missing us 0 uri missing))
          | no full ↦
              rw (le→ltb (length us) 1000 (omega arith))
                (refuses refl refl (omega arith) (find_uri-missing us 0 uri missing))
        ])
  | inr found ↦
      let (id, e) = found in
      let (k, at, there) = find_uri-found us 0 id uri e in
      rw (e, simple_map) (finds k (omega (arith, at)) refl there)
]

-- A table without repetitions, of at most 1000 texts.
pub record IsTable (us : List String) : Type 0 where
  pub small : length us ≤ 1000
  pub distinct : (i j : ℕ) (u : String) → get_elem? us i ≡ some u → get_elem? us j ≡ some u → i ≡ j

-- An entry of a table with one text more is old, or it is the new one.
get_elem?-snoc :
    (us : List String) (uri u : String) (i : ℕ)
    → get_elem? (us ++ uri ∷ []) i ≡ some u
    → (get_elem? us i ≡ some u) ⊎ ((i ≡ length us) × (uri ≡ u))
get_elem?-snoc [] uri u zero e = inr (refl, eq_of_some-eq e)
get_elem?-snoc [] uri u (suc i) e = ground arith
get_elem?-snoc (v ∷ us) uri u zero e = inl e
get_elem?-snoc (v ∷ us) uri u (suc i) e = elim (get_elem?-snoc us uri u i e) [
  | inl old ↦ inl old
  | inr new ↦ inr (omega (arith, new.0), new.1)
]

get_elem?-prefix :
    (us rest : List String) (u : String) (i : ℕ)
    → get_elem? us i ≡ some u
    → get_elem? (us ++ rest) i ≡ some u
get_elem?-prefix [] rest u i e = ground arith
get_elem?-prefix (v ∷ us) rest u zero e = e
get_elem?-prefix (v ∷ us) rest u (suc i) e = get_elem?-prefix us rest u i e

IsTable-snoc :
    (us : List String) (uri : String)
    → IsTable us
    → length us < 1000
    → ((k : ℕ) → get_elem? us k ≢ some uri)
    → IsTable (us ++ uri ∷ [])
IsTable-snoc us uri v room missing = record {
  small = omega (arith, length-append {0} us (uri ∷ []));
  distinct = λ i j u p q. elim (get_elem?-snoc us uri u i p) [
    | inl old_i ↦ elim (get_elem?-snoc us uri u j q) [
      | inl old_j ↦ v.distinct i j u old_i old_j
      | inr new_j ↦ absurd (missing i (old_i ∙ ap some (sym new_j.1)))
    ]
    | inr new_i ↦ elim (get_elem?-snoc us uri u j q) [
      | inl old_j ↦ absurd (missing j (old_j ∙ ap some (sym new_i.1)))
      | inr new_j ↦ omega (arith, new_i.0, new_j.0)
    ]
  ];
}

-- The table afterwards: it only grows, it stays a table, and a number other than 0 names the text.
Mapped-names :
    (us : List String) (uri : String) (id : ℕ) (t : List String)
    → IsTable us
    → Mapped us uri id t
    → IsTable t
      × ((rest : List String) × (t ≡ us ++ rest))
      × ((a : ℕ) → id ≡ suc a → get_elem? t a ≡ some uri)
      × (length us < 1000 → 0 < id)
      × (length t ≤ length us + 1)
Mapped-names us uri id t v (finds k at same there) = (
  subst IsTable (sym same) v,
  ([], same ∙ sym (append-nil us)),
  λ a e. ap (λ l. get_elem? l a) same ∙ ap (get_elem? us) {x = a} {y = k} (omega arith) ∙ there,
  λ _. omega (arith, at),
  omega (arith, ap length same),
)
Mapped-names us uri id t v (adds at grown room missing) = (
  subst IsTable (sym grown) (IsTable-snoc us uri v room missing),
  (uri ∷ [], grown),
  λ a e.
      ap (λ l. get_elem? l a) grown
      ∙ ap (get_elem? (us ++ uri ∷ [])) {x = a} {y = length us + 0} (omega arith)
      ∙ get_elem?-append_right us (uri ∷ []) 0,
  λ _. omega (arith, at),
  omega (arith, ap length grown, length-append {0} us (uri ∷ [])),
)
Mapped-names us uri id t v (refuses at same full missing) = (
  subst IsTable (sym same) v,
  ([], same ∙ sym (append-nil us)),
  λ a e. absurd (omega arith),
  λ h. omega arith,
  omega (arith, ap length same),
)

names-cons :
    (c : String) (calls : List String) (id : ℕ) (ids : List ℕ) (t : List String)
    → ((a : ℕ) → id ≡ suc a → get_elem? t a ≡ some c)
    → ((i : ℕ) (u : String) (a : ℕ)
        → get_elem? calls i ≡ some u
        → get_elem? ids i ≡ some (suc a)
        → get_elem? t a ≡ some u)
    → (i : ℕ) (u : String) (a : ℕ) → get_elem? (c ∷ calls) i ≡ some u
    → get_elem? (id ∷ ids) i ≡ some (suc a)
    → get_elem? t a ≡ some u
names-cons c calls id ids t first later zero u a p q = first a (eq_of_some-eq q) ∙ p
names-cons c calls id ids t first later (suc i) u a p q = later i u a p q

positive-cons :
    (id : ℕ) (ids : List ℕ)
    → 0 < id
    → ((i : ℕ) (n : ℕ) → get_elem? ids i ≡ some n → 0 < n)
    → (i : ℕ) (n : ℕ) → get_elem? (id ∷ ids) i ≡ some n
    → 0 < n
positive-cons id ids first later zero n q = omega (arith, eq_of_some-eq q)
positive-cons id ids first later (suc i) n q = later i n q

-- What a run of calls leaves: a number other than 0 names its text in the table at the end.
map_all-names :
    (calls us : List String)
    → IsTable us
    → IsTable (map_all us calls).1
      × ((rest : List String) × ((map_all us calls).1 ≡ us ++ rest))
      × ((i : ℕ) (u : String) (a : ℕ)
          → get_elem? calls i ≡ some u
          → get_elem? (map_all us calls).0 i ≡ some (suc a)
          → get_elem? (map_all us calls).1 a ≡ some u)
      × (length us + length calls ≤ 1000
          → (i : ℕ) (id : ℕ) → get_elem? (map_all us calls).0 i ≡ some id
          → 0 < id)
unfolding map_all
map_all-names [] us v =
    (v, ([], sym (append-nil us)), λ i u a e. ground arith, λ _ i id e. ground arith)
map_all-names (c ∷ calls) us v =
    let (w, (r₁, grown₁), names₁, pos₁, len₁) =
      Mapped-names us c (simple_map us c).0 (simple_map us c).1 v (simple_map-Mapped us c) in
    let (w₂, (r₂, grown₂), names₂, pos₂) = map_all-names calls (simple_map us c).1 w in
    (
      w₂,
      (r₁ ++ r₂, grown₂ ∙ ap (λ l. l ++ r₂) grown₁ ∙ append_assoc us r₁ r₂),
      names-cons c calls (simple_map us c).0 (map_all (simple_map us c).1 calls).0
          (map_all (simple_map us c).1 calls).1
          (λ a e.
            ap (λ l. get_elem? l a) grown₂
            ∙ get_elem?-prefix (simple_map us c).1 r₂ c a (names₁ a e))
          names₂,
      λ room.
          positive-cons (simple_map us c).0 (map_all (simple_map us c).1 calls).0
            (pos₁ (omega arith)) (pos₂ (omega (arith, len₁))),
    )

-- The table that a run of calls leaves has no repetitions.
pub map_all-IsTable : (calls us : List String) → IsTable us → IsTable (map_all us calls).1
map_all-IsTable calls us v = (map_all-names calls us v).0

pub empty-IsTable : IsTable []
empty-IsTable = record { small = omega arith; distinct = λ i j u p q. ground arith }

-- While the table has room for a run of calls, every number is positive, and two calls get the
-- same number exactly if they ask for the same text.
pub map_all-interns :
    (us calls : List String)
    → IsTable us
    → length us + length calls ≤ 1000
    → (i j : ℕ) (u v : String) (a b : ℕ) → get_elem? calls i ≡ some u
    → get_elem? calls j ≡ some v
    → get_elem? (map_all us calls).0 i ≡ some a
    → get_elem? (map_all us calls).0 j ≡ some b
    → (0 < a) × (0 < b) × (a ≡ b ↔ u ≡ v)
map_all-interns us calls w few i j u v zero b p q r t =
    let (_, _, _, positive) = map_all-names calls us w in absurd (omega (arith, positive few i 0 r))
map_all-interns us calls w few i j u v (suc a) zero p q r t =
    let (_, _, _, positive) = map_all-names calls us w in absurd (omega (arith, positive few j 0 t))
map_all-interns us calls w few i j u v (suc a) (suc b) p q r t =
    let (table, _, names, _) = map_all-names calls us w in
    let at_a : get_elem? (map_all us calls).1 a ≡ some u = names i u a p r in
    let at_b : get_elem? (map_all us calls).1 b ≡ some v = names j v b q t in
    (
      omega arith,
      omega arith,
      (
        λ e. eq_of_some-eq (sym at_a ∙ ap (get_elem? (map_all us calls).1) (omega arith) ∙ at_b),
        λ e. ap suc (table.distinct a b u at_a (at_b ∙ ap some (sym e))),
      ),
    )

Mapped-full :
    (us : List String) (uri : String) (id : ℕ) (t : List String)
    → 1000 ≤ length us
    → Mapped us uri id t
    → (((k : ℕ) → get_elem? us k ≢ some uri) → (id ≡ 0) × (t ≡ us))
      × ((k : ℕ) → get_elem? us k ≡ some uri → get_elem? us (id - 1) ≡ some uri)
Mapped-full us uri id t full (finds k at same there) = (
  λ missing. absurd (missing k there),
  λ _ _. ap (get_elem? us) {x = id - 1} {y = k} (omega arith) ∙ there,
)
Mapped-full us uri id t full (adds at grown room missing) = absurd (omega arith)
Mapped-full us uri id t full (refuses at same _ missing) =
    (λ _. (at, same), λ k there. absurd (missing k there))

-- A full table refuses a text that it does not hold, with the number 0, and stays as it is; to a
-- text that it holds it still gives the text's number.
pub simple_map-full :
    (us : List String) (uri : String)
    → 1000 ≤ length us
    → (((k : ℕ) → get_elem? us k ≢ some uri)
        → ((simple_map us uri).0 ≡ 0) × ((simple_map us uri).1 ≡ us))
      × ((k : ℕ) → get_elem? us k ≡ some uri → get_elem? us ((simple_map us uri).0 - 1) ≡ some uri)
simple_map-full us uri full =
    Mapped-full us uri (simple_map us uri).0 (simple_map us uri).1 full (simple_map-Mapped us uri)
