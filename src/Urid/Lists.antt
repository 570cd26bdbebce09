-- ===== src/Urid/Lists.antt =====
-- lv2_ext.h and lv2_ext.cpp: two tables of URIs that grow without a bound. Only code that is
-- left out of the build calls them.
pub mod Same
mod Tests
use Prim.Native.String.{String}
use text.Mathlib.Text.{◌==◌}
use amprack_6_pc.Base.{
  ℕ, zero, suc, ◌+◌, ltb, Option, none, some, List, [], ◌∷◌, ◌++◌, length, take, drop,
  if◌then◌else◌, ◌>>=◌, ◌>>◌, assert,
}

-- `std::find`, as the distance from the beginning of a list; `i` is the distance so far.
unfoldable pub find_from : ℕ → List String → String → Option ℕ
find_from i [] s = none
find_from i (u ∷ us) s = let rest = find_from (i + 1) us s in if u == s then some i else rest

-- `URID` as its `urids`. The results are the number and the list.
pub lv2_urid_map : List String → String → ℕ × List String
unfolding find_from
lv2_urid_map urids s = elim (find_from 0 urids s) [
  | some at ↦ (at + 1, urids)
  | none ↦ let grown = urids ++ s ∷ [] in (length grown, grown)
]

-- Erasing at the end of the list, or beyond, is a fault.
pub lv2_urid_unmap : List String → ℕ → Option (List String)
lv2_urid_unmap urids at = do
  assert (ltb at (length urids))
  some (take at urids ++ drop (at + 1) urids)

pub amp_map_map : List String → String → ℕ × List String
unfolding find_from
amp_map_map v uri = elim (find_from 0 v uri) [
  | some at ↦ (at + 2, v)
  | none ↦ let grown = v ++ uri ∷ [] in (length grown + 1, grown)
]

-- Several calls of a map, one after the other.
pub run_map :
    (List String → String → ℕ × List String) → List String → List String → List ℕ × List String
run_map f table [] = ([], table)
run_map f table (u ∷ us) =
    let first = f table u in let rest = run_map f first.1 us in (first.0 ∷ rest.0, rest.1)
