-- ===== src/Urid/Lists/Tests.antt =====
-- lv2_ext.cpp: the tables on a few texts.
use Prim.Native.String.{String}
use amprack_6_pc.Base.{◌≡◌, refl, some, List, [], ◌∷◌}
use amprack_6_pc.Urid.Lists.{find_from, lv2_urid_map, lv2_urid_unmap, amp_map_map, run_map}

abbrev calls : List String
calls = "atom#Int" ∷ "atom#Path" ∷ "atom#Int" ∷ []

amp_map_map-test : run_map amp_map_map [] calls ≡ (2 ∷ 3 ∷ 2 ∷ [], "atom#Int" ∷ "atom#Path" ∷ [])
unfolding run_map amp_map_map find_from
amp_map_map-test = refl

lv2_urid_map-test : run_map lv2_urid_map [] calls ≡ (1 ∷ 2 ∷ 1 ∷ [], "atom#Int" ∷ "atom#Path" ∷ [])
unfolding run_map lv2_urid_map find_from
lv2_urid_map-test = refl

lv2_urid_unmap-test : lv2_urid_unmap ("atom#Int" ∷ "atom#Path" ∷ []) 1 ≡ some ("atom#Int" ∷ [])
unfolding lv2_urid_unmap
lv2_urid_unmap-test = refl
