-- ===== src/Presets.antt =====
-- presets.cc: the pages of the preset library.
pub mod Exchange
pub mod Paging
mod Tests
use amprack_6_pc.Base.{ℕ, ◌+◌, ◌-◌, ◌*◌, ltb, ◌==◌, Bool, true, false, List, [], ◌∷◌, if◌then◌else◌}

abbrev pub page_size : ℕ
page_size = 50

module _ {J : Type 0} where
  -- The loop of `library_load` with its counters `i` and `e`: the presets that it adds. Their names are
  -- texts; `add_preset` throws on another name.
  pub load_loop : ℕ → ℕ → ℕ → List J → List J
  load_loop skip i e [] = []
  load_loop skip i e (p ∷ ps) =
      let skipped = load_loop skip (i + 1) e ps in
      let added = load_loop skip i (e + 1) ps in
      if ltb i skip then skipped else if ltb page_size (e + 1) then [] else p ∷ added

  pub library_load : ℕ → List J → List J
  unfolding load_loop
  library_load page library = load_loop (page * page_size) 0 0 library

-- `presets_next` and `presets_prev` on the page number.
pub presets_next : ℕ → ℕ
presets_next page = page + 1

pub presets_prev : ℕ → ℕ
presets_prev page = if page == 0 then 0 else page - 1
