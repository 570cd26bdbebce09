-- ===== src/Storage.antt =====
-- engine.cc's `savePreset` and rack.cc's `load_preset` from a file: a preset on its way through
-- getPreset, the JSON library, the file, `addPluginByName` and the sliders of the widgets.
pub mod Panels
pub mod Loaded
pub mod Kept
pub mod RoundTrip
mod Tests
use Prim.Native.String.{String}
use amprack_6_pc.Base.{
  ℕ, zero, suc, ◌+◌, ◌-◌, ◌/◌, ◌%◌, ◌==◌, ltb, Bool, true, false, Option, none, some, List, [], ◌∷◌,
  ◌++◌, map, length, get_elem?, if◌then◌else◌, ◌>>=◌,
}
use amprack_6_pc.Plugin.{Plugin}
use amprack_6_pc.Engine.{clear}
use amprack_6_pc.Rack.{Rack}
use amprack_6_pc.Rack.Adding.{Catalogue, add_plugin_by_name}
use amprack_6_pc.Patch.{Knob, Effect, Saved, Toolkit, get_preset, sliders, load_preset}
use amprack_6_pc.Decimal.{keyed}
use amprack_6_pc.Sound.{SoundInfo, Player, Studio, set_plugin_audio_file, set_plugin_file}
use amprack_6_pc.Files.{
  Bytes, behind_last, slash, FileSystem, Json, filename_to_json, json_to_filename,
}

-- The JSON value of a preset file. `controls` is `none` where the key is missing.
pub record Preset : Type 0 where
  pub name : Bytes
  pub desc : Bytes
  pub controls : Option (List Saved)

-- The JSON library: texts of whole values, the elements of an object in the order in which a loop goes
-- through them, `dump` of a text without the first and the last byte, and whether the empty value is
-- equal to `NULL`.
pub record Library : Type 0 where
  pub json : Json Preset
  pub elements : List (Bytes × Saved) → List Saved
  pub escape : String → String
  pub escape_text : Bytes → Bytes
  pub empty_is_null : Bool

-- What libsndfile makes of a file; a new plugin as the operations on files see it; a text as bytes.
pub record Loader (A B : Type 0) : Type 0 where
  pub sf_open : Bytes → Option (SoundInfo B)
  pub player_of : Plugin A → Player
  pub bytes : String → Bytes

-- The rack, the sliders of its widgets, and its plugins as the operations on files see them. The
-- label with the preset's name is not kept.
pub record Desk (A S B : Type 0) : Type 0 where
  pub rack : Rack A
  pub panels : List (List S)
  pub studio : Studio B

module _ {F S : Type 0} (l : Library) (k : Toolkit F S) where
  -- `savePreset`; the result tells whether it was saved.
  pub save_preset : List (Effect F) → Bytes → Bytes → FileSystem → Bool × FileSystem
  save_preset es filename description fs = elim (get_preset k es) [
    | none ↦ if l.empty_is_null then (false, fs) else (
      true,
      json_to_filename l.json
          (record { name = behind_last slash filename; desc = description; controls = none })
          filename fs,
    )
    | some ps ↦ (
      true,
      json_to_filename l.json
          (record {
            name = behind_last slash filename;
            desc = description;
            controls = some (l.elements (keyed 0 ps));
          })
          filename fs,
    )
  ]

-- The rack is emptied.
abbrev pub cleared : {B : Type 0} → Studio B → Studio B
cleared s = record s { players = [] }

-- A name and a type of a file, as `dump` gives the name.
pub escaped : Library → Option (String × ℕ) → Option (String × ℕ)
escaped l none = none
escaped l (some f) = some (l.escape f.0, f.1)

module _ {A B : Type 0} (ld : Loader A B) where
  -- The file of a plugin, if it had one. Both operations leave `bypass` clear, as `addPlugin` did before.
  pub give_file : ℕ → Option (String × ℕ) → Studio B → Option (Studio B)
  give_file index none s = some s
  give_file index (some f) s =
      if f.1 == 0
      then set_plugin_audio_file ld.sf_open index (ld.bytes f.0) s
      else set_plugin_file index (ld.bytes f.0) s

  pub add_player : Plugin A → Studio B → Studio B
  add_player q s = record s { players = s.players ++ ld.player_of q ∷ [] }

module _ {A F S B : Type 0} (l : Library) (k : Toolkit F S) (ld : Loader A B) (c : Catalogue A)
    (knobs : Plugin A → List (Knob F)) where
  -- What `load_preset` does with a new plugin and its widget: `controls`, and then the file.
  pub fill_panel : Saved → ℕ → Rack A → Plugin A → Desk A S B → Option (Desk A S B)
  unfolding give_file add_player escaped
  fill_panel p index r q d = do
    s ← give_file ld index (escaped l p.file) (add_player ld q d.studio)
    some (record {
      rack = r;
      panels = d.panels ++ load_preset k (l.escape_text p.controls) (sliders k (knobs q)) ∷ [];
      studio = s;
    })

  -- The loop of `load_preset`; a plugin that is not found is passed over.
  pub load_all : List Saved → ℕ → Desk A S B → Option (Desk A S B)
  unfolding fill_panel
  load_all [] index d = some d
  load_all (p ∷ ps) index d = add_plugin_by_name c (l.escape p.name) d.rack >>= λ added.
      elim added.0 as (λ _. Option (Desk A S B)) [
        | false ↦ load_all ps index (record d { rack = added.1 })
        | true ↦
            get_elem? added.1.engine.active_plugins (length added.1.engine.active_plugins - 1)
            >>= λ q. fill_panel p index added.1 q d >>= λ d'. load_all ps (index + 1) d'
      ]

  -- `load_preset (json)`; a loop over a missing key does nothing.
  pub load_json : Preset → Desk A S B → Option (Desk A S B)
  unfolding load_all
  load_json j d = do
    e ← clear d.rack.engine
    let empty = record d { rack = record d.rack { engine = e }; studio = cleared d.studio }
    elim j.controls [ none ↦ some empty | some ps ↦ load_all ps 0 empty ]

  -- `load_preset (std::string)`. What the file holds is an object, and so not `NULL`.
  pub load_file : Bytes → Desk A S B → Option (Desk A S B)
  unfolding load_json
  load_file filename d = do j ← filename_to_json l.json d.studio.fs filename; load_json j d
