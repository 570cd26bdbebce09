-- ===== src/Presets/Tests.antt =====
-- presets.cc: a library of three presets.
use amprack_6_pc.Base.{ℕ, ◌≡◌, refl, List, [], ◌∷◌}
use amprack_6_pc.Presets.{library_load, load_loop, presets_next, presets_prev}
use amprack_6_pc.Presets.Paging.{pages, library_load-pages}

abbrev library : List ℕ
library = 4 ∷ 5 ∷ 6 ∷ []

library_load-test : (library_load 0 library ≡ library) × (library_load 1 library ≡ [])
unfolding library_load load_loop
library_load-test = (refl, refl)

presets_prev-test : (presets_prev (presets_next 0) ≡ 0) × (presets_prev 0 ≡ 0)
unfolding presets_prev presets_next
presets_prev-test = (refl, refl)

library_load-pages_example : (library_load 1 library ≡ []) × (pages 2 library ≡ library)
library_load-pages_example = library_load-pages 1 2 library
