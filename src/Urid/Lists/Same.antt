-- ===== src/Urid/Lists/Same.antt =====
-- lv2_ext.cpp: its tables of URIs beside `simple_map`.
use Prim.Native.String.{String}
use text.Mathlib.Text.{◌==◌}
use amprack_6_pc.Base.{
  ℕ, suc, ◌+◌, ◌-◌, ◌≤◌, ◌<◌, ◌≡◌, ◌≢◌, refl, ap, ◌∙◌, arith, none, some, inl, inr, List, [], ◌∷◌,
  ◌++◌, map, length, length-append, append-nil, take-append_length, drop-append_length, get_elem?,
  Bool-cases, Option-cases, lt→ltb, le→ltb, ◌>>=◌,
}
use amprack_6_pc.Urid.{find_uri, simple_map, map_all}
use amprack_6_pc.Urid.Interning.{find_uri-found}
use amprack_6_pc.Urid.Lists.{find_from, lv2_urid_map, lv2_urid_unmap, amp_map_map, run_map}

find_uri-find_from :
    (us : List String) (i : ℕ) (s : String)
    → find_uri us i s ≡ (find_from i us s >>= λ at. some (at + 1))
unfolding find_uri find_from
find_uri-find_from [] i s = refl
find_uri-find_from (u ∷ us) i s = elim (Bool-cases (u == s)) [
  | inl same ↦ rw same refl
  | inr other ↦ rw other (find_uri-find_from us (i + 1) s)
]

length-snoc : (us : List String) (s : String) → length (us ++ s ∷ []) ≡ length us + 1
length-snoc us s = length-append {0} us (s ∷ [])

simple_map-lv2_urid_map :
    (us : List String) (s : String) → length us < 1000 → lv2_urid_map us s ≡ simple_map us s
unfolding lv2_urid_map simple_map
simple_map-lv2_urid_map us s room = elim (Option-cases (find_from 0 us s)) [
  | inl missing ↦
      let none_there : find_uri us 0 s ≡ none =
        find_uri-find_from us 0 s ∙ ap (λ o. o >>= λ at. some (at + 1)) missing in
      rw
        (
          lv2_urid_map,
          simple_map,
          missing,
          none_there,
          lt→ltb (length us) 1000 room,
          length-snoc us s,
        )
        refl
  | inr (at, found) ↦
      let there : find_uri us 0 s ≡ some (at + 1) =
        find_uri-find_from us 0 s ∙ ap (λ o. o >>= λ at. some (at + 1)) found in
      rw (lv2_urid_map, simple_map, found, there) refl
]

amp_map_map-lv2_urid_map :
    (us : List String) (s : String)
    → amp_map_map us s ≡ (suc (lv2_urid_map us s).0, (lv2_urid_map us s).1)
unfolding lv2_urid_map amp_map_map
amp_map_map-lv2_urid_map us s = elim (Option-cases (find_from 0 us s)) [
  | inl missing ↦
      rw (amp_map_map, lv2_urid_map, missing) (ap (λ n. (n, us ++ s ∷ [])) (omega arith))
  | inr (at, found) ↦ rw (amp_map_map, lv2_urid_map, found) (ap (λ n. (n, us)) (omega arith))
]

length-lv2_urid_map : (us : List String) (s : String) → length (lv2_urid_map us s).1 ≤ length us + 1
unfolding lv2_urid_map
length-lv2_urid_map us s = elim (Option-cases (find_from 0 us s)) [
  | inl missing ↦ rw (lv2_urid_map, missing) (omega (arith, length-snoc us s))
  | inr (at, found) ↦ rw (lv2_urid_map, found) (omega arith)
]

run-lv2_urid_map :
    (us calls : List String)
    → length us + length calls ≤ 1000
    → run_map lv2_urid_map us calls ≡ map_all us calls
unfolding run_map map_all
run-lv2_urid_map us [] few = refl
run-lv2_urid_map us (c ∷ calls) few =
    let same = simple_map-lv2_urid_map us c (omega arith) in
    let later : run_map lv2_urid_map (lv2_urid_map us c).1 calls
        ≡ map_all (lv2_urid_map us c).1 calls =
      run-lv2_urid_map (lv2_urid_map us c).1 calls (omega (arith, length-lv2_urid_map us c)) in
    rw later (rw same refl)

run-amp_map_map :
    (us calls : List String)
    → run_map amp_map_map us calls
      ≡ (map (λ n. suc n) (run_map lv2_urid_map us calls).0, (run_map lv2_urid_map us calls).1)
unfolding run_map
run-amp_map_map us [] = refl
run-amp_map_map us (c ∷ calls) =
    let later = run-amp_map_map (lv2_urid_map us c).1 calls in
    rw (amp_map_map-lv2_urid_map us c) (rw later refl)

-- From one table of texts on, and while a table of 1000 texts has room for the calls, lv2_urid_map
-- gives the numbers and leaves the texts that simple_map does; ampMap_map leaves the same texts, and
-- its numbers are greater by one.
pub maps-agree :
    (us calls : List String)
    → length us + length calls ≤ 1000
    → (run_map lv2_urid_map us calls ≡ map_all us calls)
      × (run_map amp_map_map us calls
          ≡ (map (λ n. suc n) (map_all us calls).0, (map_all us calls).1))
maps-agree us calls few =
    let same = run-lv2_urid_map us calls few in
    (same, run-amp_map_map us calls ∙ ap (λ r. (map (λ n. suc n) r.0, r.1)) same)

unmap-last : (us : List String) (s : String) → lv2_urid_unmap (us ++ s ∷ []) (length us) ≡ some us
unfolding lv2_urid_unmap
unmap-last us s =
    rw
      (
        lt→ltb (length us) (length (us ++ s ∷ [])) (omega (arith, length-snoc us s)),
        take-append_length us (s ∷ []),
        drop-append_length us (s ∷ []) 1,
      )
      (ap some (append-nil us))

-- A text that the list does not hold is given a number. To unmap this number is a fault, and the
-- number below it takes the text out of the list again.
pub lv2_urid_unmap-misses :
    (us : List String) (s : String)
    → ((k : ℕ) → get_elem? us k ≢ some s)
    → (id : ℕ) × (grown : List String) × (lv2_urid_map us s ≡ (id, grown))
      × (lv2_urid_unmap grown id ≡ none)
      × (lv2_urid_unmap grown (id - 1) ≡ some us)
unfolding lv2_urid_map lv2_urid_unmap
lv2_urid_unmap-misses us s absent = elim (Option-cases (find_from 0 us s)) [
  | inl missing ↦ (
    length us + 1,
    us ++ s ∷ [],
    rw (lv2_urid_map, missing) (ap (λ n. (n, us ++ s ∷ [])) (length-snoc us s)),
    rw (le→ltb (length us + 1) (length (us ++ s ∷ [])) (omega (arith, length-snoc us s))) refl,
    ap (lv2_urid_unmap (us ++ s ∷ [])) {x = length us + 1 - 1} {y = length us} (omega arith)
        ∙ unmap-last us s,
  )
  | inr (at, found) ↦
      let there : find_uri us 0 s ≡ some (at + 1) =
        find_uri-find_from us 0 s ∙ ap (λ o. o >>= λ at. some (at + 1)) found in
      let (k, _, at_k) = find_uri-found us 0 (at + 1) s there in absurd (absent k at_k)
]
