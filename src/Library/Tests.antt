-- ===== src/Library/Tests.antt =====
-- SharedLibrary.cpp on a library of two plugins.
use amprack_6_pc.Base.{ℕ, zero, suc, ◌≡◌, refl, arith, true, Option, none, some, [], ◌∷◌}
use amprack_6_pc.Plugin.{ladspa, lilv}
use amprack_6_pc.Library.{Linker, SharedLibrary, new_library, load}
use amprack_6_pc.Library.Loading.{load-counts}

abbrev two : ℕ → Option ℕ
two zero = some 10
two (suc zero) = some 11
two (suc (suc n)) = none

abbrev linker : Linker ℕ (Unit {0})
linker = record {
  dlopen = λ file. some (some two, none);
  dlerror = "missing";
  by_uri = λ uri. none;
  instantiate = λ p rate. none;
  bundle = λ p. "";
}

abbrev amp : SharedLibrary ℕ (Unit {0})
amp = new_library [] "amp.so" ladspa

load-counts_example :
    (s' : SharedLibrary ℕ (Unit {0})) × (load linker 3 amp ≡ some (none, s'))
    × (s'.descriptors ≡ 10 ∷ 11 ∷ [])
    × (s'.total_plugins ≡ 2)
    × (s'.so_file ≡ "amp.so")
    × (s'.dl_handle ≡ true)
load-counts_example =
    load-counts linker 3 amp (some two, none) two (10 ∷ 11 ∷ []) refl refl (refl, (refl, refl))
      (omega arith)

-- liblilv does not know the URI: the null pointer is followed.
load-unknown : load linker 3 (new_library [] "urn:none" lilv) ≡ none
unfolding load
load-unknown = refl
