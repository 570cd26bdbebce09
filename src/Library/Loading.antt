-- ===== src/Library/Loading.antt =====
-- SharedLibrary.cpp: which descriptors `load` finds.
use amprack_6_pc.Base.{
  ℕ, suc, zero, ◌+◌, ◌<◌, ◌≡◌, refl, sym, ap, ◌∙◌, arith, true, Option, none, some, List, [], ◌∷◌,
  ◌++◌, append-nil, append_assoc, length,
}
use amprack_6_pc.Plugin.{PluginType, ladspa, lv2, lilv}
use amprack_6_pc.Library.{Linker, SharedLibrary, count_plugins, load_as, load, add_features}

add_zero : (i : ℕ) → i ≡ i + 0
add_zero i = omega arith

one_more : (i n : ℕ) → i + 1 + n ≡ i + suc n
one_more i n = omega arith

module _ {D : Type 0} (descriptor : ℕ → Option D) where
  -- The library has exactly these descriptors, from number `i` on.
  abbrev pub Gives : ℕ → List D → Type 0
  Gives i [] = descriptor i ≡ none
  Gives i (d ∷ ds) = (descriptor i ≡ some d) × Gives (i + 1) ds

  count_plugins-Gives :
      (ds old : List D) (i fuel : ℕ)
      → Gives i ds
      → length ds < fuel
      → count_plugins fuel i descriptor old ≡ some (i + length ds, old ++ ds)
  unfolding count_plugins
  count_plugins-Gives [] old i zero g h = absurd (omega arith)
  count_plugins-Gives [] old i (suc fuel) g h =
      rw (count_plugins, g) (ap some {x = (i, old)} (λ k. (add_zero i k, sym (append-nil old) k)))
  count_plugins-Gives (d ∷ ds) old i zero g h = absurd (omega arith)
  count_plugins-Gives (d ∷ ds) old i (suc fuel) g h =
      rw (count_plugins, g.0)
        (count_plugins-Gives ds (old ++ d ∷ []) (i + 1) fuel g.1 (omega arith)
          ∙ ap some (λ k. (one_more i (length ds) k, append_assoc old (d ∷ []) ds k)))

module _ {D P : Type 0} (k : Linker D P) where
  -- The function that `load` looks up for a kind of library, among those that `dlsym` finds.
  abbrev pub function_of :
      PluginType → Option (ℕ → Option D) × Option (ℕ → Option D) → Option (ℕ → Option D)
  function_of ladspa symbols = symbols.0
  function_of lv2 symbols = symbols.1
  function_of lilv symbols = none

  load_by :
      (kind : PluginType) (fuel : ℕ) (s : SharedLibrary D P)
      (symbols : Option (ℕ → Option D) × Option (ℕ → Option D)) (f : ℕ → Option D) (ds : List D)
      → k.dlopen s.so_file ≡ some symbols
      → function_of kind symbols ≡ some f
      → Gives f 0 ds
      → length ds < fuel
      → (s' : SharedLibrary D P) × (load_as kind k fuel s ≡ some (none, s'))
        × (s'.descriptors ≡ s.descriptors ++ ds)
        × (s'.total_plugins ≡ length ds)
        × (s'.so_file ≡ s.so_file)
        × (s'.dl_handle ≡ true)
  unfolding load_as
  load_by ladspa fuel s symbols f ds opens finds gives few = (
    record s { dl_handle = true; total_plugins = 0 + length ds; descriptors = s.descriptors ++ ds },
    rw (load_as, opens, finds, count_plugins-Gives f ds s.descriptors 0 fuel gives few) refl,
    refl,
    omega arith,
    refl,
    refl,
  )
  load_by lv2 fuel s symbols f ds opens finds gives few = (
    record (add_features s) {
      dl_handle = true;
      total_plugins = 0 + length ds;
      descriptors = s.descriptors ++ ds;
    },
    rw (load_as, opens, finds, count_plugins-Gives f ds s.descriptors 0 fuel gives few) refl,
    refl,
    omega arith,
    refl,
    refl,
  )
  load_by lilv fuel s symbols f ds opens finds gives few = cc

  -- Where the library opens and its function gives exactly `ds`, the loop ends with fuel for one round
  -- more: the library then has these descriptors behind those that it had, in order, and counts them.
  pub load-counts :
      (fuel : ℕ) (s : SharedLibrary D P) (symbols : Option (ℕ → Option D) × Option (ℕ → Option D))
      (f : ℕ → Option D) (ds : List D)
      → k.dlopen s.so_file ≡ some symbols
      → function_of s.kind symbols ≡ some f
      → Gives f 0 ds
      → length ds < fuel
      → (s' : SharedLibrary D P) × (load k fuel s ≡ some (none, s'))
        × (s'.descriptors ≡ s.descriptors ++ ds)
        × (s'.total_plugins ≡ length ds)
        × (s'.so_file ≡ s.so_file)
        × (s'.dl_handle ≡ true)
  unfolding load
  load-counts fuel s symbols f ds opens finds gives few =
      load_by s.kind fuel s symbols f ds opens finds gives few
