-- ===== src/Urid.antt =====
-- Plugin.cpp: `simple_map`, which numbers the URIs that plugins and the host pass around.
pub mod Interning
pub mod Lists
mod Tests
use Prim.Native.String.{String}
use text.Mathlib.Text.{◌==◌}
use amprack_6_pc.Base.{
  ℕ, zero, suc, ◌+◌, ltb, Option, none, some, List, [], ◌∷◌, ◌++◌, length, if◌then◌else◌,
}

-- The size of `uris`.
abbrev pub max_uris : ℕ
max_uris = 1000

-- The loop of `simple_map` over the texts from index `i` on: the number of the first equal one.
unfoldable pub find_uri : List String → ℕ → String → Option ℕ
find_uri [] i uri = none
find_uri (u ∷ us) i uri =
    let rest = find_uri us (i + 1) uri in if u == uri then some (i + 1) else rest

-- The `n_uris` texts in `uris` are a list. The results are the number and the table; 0 stands for
-- a table that is full.
unfoldable pub simple_map : List String → String → ℕ × List String
unfolding find_uri
simple_map uris uri = elim (find_uri uris 0 uri) [
  | some id ↦ (id, uris)
  | none ↦ if ltb (length uris) max_uris then (length uris + 1, uris ++ uri ∷ []) else (0, uris)
]

-- Several calls, one after the other.
unfoldable pub map_all : List String → List String → List ℕ × List String
unfolding simple_map
map_all uris [] = ([], uris)
map_all uris (u ∷ us) =
    let first = simple_map uris u in let rest = map_all first.1 us in (first.0 ∷ rest.0, rest.1)
