-- ===== src/Library.antt =====
-- SharedLibrary.h and SharedLibrary.cpp: a plugin library, its descriptors, and whether a plugin can
-- stand in the rack.
pub mod Loading
pub mod Valid
mod Tests
use Prim.Native.String.{String}
use amprack_6_pc.Base.{
  ℕ, suc, zero, ◌+◌, ◌==◌, Bool, true, false, Option, none, some, List, [], ◌∷◌, ◌++◌, map, length,
  not, ◌&&◌, ◌||◌, if◌then◌else◌, ◌>>=◌,
}
use amprack_6_pc.Control.{has}
use amprack_6_pc.Plugin.{PluginType, ladspa, lv2, lilv}
use amprack_6_pc.Plugin.Ladspa.{port_audio, port_input}

-- The dynamic linker and liblilv. A library is what `dlsym` finds in it: the two functions that give
-- its descriptors by number.
pub record Linker (D P : Type 0) : Type 0 where
  pub dlopen : String → Option (Option (ℕ → Option D) × Option (ℕ → Option D))
  pub dlerror : String
  pub by_uri : String → Option P
  pub instantiate : P → ℕ → Option D
  pub bundle : P → String

-- `features_by_uri` are the keys of `m_featureByUri`. A pointer to an element of `m_features` is its
-- index; `none` is null. The Java members are not kept.
pub record SharedLibrary (D P : Type 0) : Type 0 where
  pub so_file : String
  pub kind : PluginType
  pub library_path : String
  pub dl_handle : Bool
  pub descriptors : List D
  pub total_plugins : ℕ
  pub features_by_uri : List String
  pub features : List String
  pub feature_pointers : List (Option ℕ)
  pub plugin : Option P

abbrev pub new_library : {D P : Type 0} → List String → String → PluginType → SharedLibrary D P
new_library uris file kind = record {
  so_file = file;
  kind = kind;
  library_path = "";
  dl_handle = false;
  descriptors = [];
  total_plugins = 0;
  features_by_uri = uris;
  features = [];
  feature_pointers = [];
  plugin = none;
}

abbrev pub pointers_from : ℕ → List String → List (Option ℕ)
pointers_from i [] = none ∷ []
pointers_from i (f ∷ fs) = some i ∷ pointers_from (i + 1) fs

-- The loops that count the plugins: the number and the descriptors that were pushed. `none` is a
-- loop that has not ended after `fuel` rounds.
pub count_plugins : {D : Type 0} → ℕ → ℕ → (ℕ → Option D) → List D → Option (ℕ × List D)
count_plugins zero i descriptor ds = none
count_plugins (suc fuel) i descriptor ds = elim (descriptor i) [
  | none ↦ some (i, ds)
  | some d ↦ count_plugins fuel (i + 1) descriptor (ds ++ d ∷ [])
]

module _ {D P : Type 0} where
  abbrev pub count_all : ℕ → Option (ℕ → Option D) → SharedLibrary D P → Option (SharedLibrary D P)
  count_all fuel function s = elim function [
    | none ↦ some s
    | some descriptor ↦ (do
      counted ← count_plugins fuel 0 descriptor s.descriptors
      some (record s { total_plugins = counted.0; descriptors = counted.1 }))
  ]

  abbrev pub add_features : SharedLibrary D P → SharedLibrary D P
  add_features s = record s {
    features = s.features ++ s.features_by_uri;
    feature_pointers = s.feature_pointers ++ pointers_from 0 (s.features ++ s.features_by_uri);
  }

  -- A URI that liblilv does not know, and a plugin that it cannot instantiate, are null pointers that
  -- are followed.
  abbrev pub load_lilv : Linker D P → SharedLibrary D P → Option (SharedLibrary D P)
  load_lilv k s = do
    p ← k.by_uri s.so_file
    d ← k.instantiate p 48000
    some (record s {
      plugin = some p;
      descriptors = s.descriptors ++ d ∷ [];
      library_path = k.bundle p;
      so_file = "";
    })

  -- `load` for a kind of library. The result is the error text, or `none` for NULL.
  pub load_as :
      PluginType → Linker D P → ℕ → SharedLibrary D P → Option (Option String × SharedLibrary D P)
  unfolding count_plugins
  load_as lilv k fuel s = do s' ← load_lilv k (add_features s); some (none, s')
  load_as ladspa k fuel s = elim (k.dlopen s.so_file) [
    | none ↦ some (some k.dlerror, record s { dl_handle = false })
    | some symbols ↦ (do
      s' ← count_all fuel symbols.0 (record s { dl_handle = true })
      some (none, s'))
  ]
  load_as lv2 k fuel s = elim (k.dlopen s.so_file) [
    | none ↦ some (some k.dlerror, record s { dl_handle = false })
    | some symbols ↦ (do
      s' ← count_all fuel symbols.1 (add_features (record s { dl_handle = true }))
      some (none, s'))
  ]

  pub load : Linker D P → ℕ → SharedLibrary D P → Option (Option String × SharedLibrary D P)
  unfolding load_as
  load k fuel s = load_as s.kind k fuel s

-- One round of the loop of `plugin_is_valid`: `icount` and `ocount`.
pub count_port : ℕ → ℕ × ℕ → ℕ × ℕ
count_port p n =
    if not (has p port_audio)
    then n
    else if has p port_input
    then (n.0 + 1, n.1)
    else (n.0, n.1 + 1)

pub count_ports : List ℕ → ℕ × ℕ → ℕ × ℕ
unfolding count_port
count_ports [] n = n
count_ports (p ∷ ps) n = count_ports ps (count_port p n)

pub plugin_is_valid : List ℕ → Bool
unfolding count_ports
plugin_is_valid ps = let n = count_ports ps (0, 0) in if n.0 == 0 || n.1 == 0 then false else true
