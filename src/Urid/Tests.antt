-- ===== src/Urid/Tests.antt =====
-- Plugin.cpp: `simple_map` on a few texts.
use Prim.Native.String.{String}
use amprack_6_pc.Base.{ℕ, ◌<◌, ◌≡◌, ◌↔◌, refl, arith, List, [], ◌∷◌, replicate}
use amprack_6_pc.Urid.{find_uri, simple_map, map_all}
use amprack_6_pc.Urid.Interning.{empty-IsTable, map_all-interns}

abbrev calls : List String
calls = "atom#Int" ∷ "atom#Path" ∷ "atom#Int" ∷ []

map_all-test : map_all [] calls ≡ (1 ∷ 2 ∷ 1 ∷ [], "atom#Int" ∷ "atom#Path" ∷ [])
unfolding map_all simple_map find_uri
map_all-test = refl

abbrev first : ℕ
first = 1

abbrev name : String
name = "atom#Int"

map_all-interns_example : (0 < first) × (0 < first) × (first ≡ first ↔ name ≡ name)
unfolding map_all simple_map find_uri
map_all-interns_example =
    map_all-interns [] calls empty-IsTable (omega arith) 0 2 name name first first refl refl refl
      refl

abbrev full_table : List String
full_table = replicate 1000 "patch#Set"
