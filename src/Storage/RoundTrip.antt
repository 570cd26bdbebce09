-- ===== src/Storage/RoundTrip.antt =====
-- engine.cc, util.cc, rack.cc and pluginui.cpp: what the rack is after its own preset was loaded.
use Prim.Native.String.{String}
use mathlib.Core.Path.{subst}
use amprack_6_pc.Base.{
  ℕ, ◌+◌, ◌≤◌, ◌<◌, ◌≡◌, refl, ap, ◌∙◌, arith, true, false, Bool-cases, inl, inr, Option,
  Option-cases, none, some, List, [], ◌∷◌, ◌++◌, map, length, length-map, ◌>>=◌,
}
use amprack_6_pc.Plugin.{Plugin, lilv}
use amprack_6_pc.Engine.Build.{switched_on, switched_on-cons, switched_on-skip}
use amprack_6_pc.Rack.Adding.{Catalogue, found}
use amprack_6_pc.Rack.Adding.Loaded.{Shows}
use amprack_6_pc.Patch.{Knob, Effect, Saved, Toolkit, save_effect, get_preset}
use amprack_6_pc.Patch.Restore.{NoSemicolon, restored}
use amprack_6_pc.Files.{Bytes, behind_last, slash}
use amprack_6_pc.Files.Copies.{filename_to_json-json_to_filename}
use amprack_6_pc.Sound.{Studio, SoundInfo, follow, set_plugin_audio_file}
use amprack_6_pc.Sound.Dangling.{set_plugin_audio_file-lilv}
use amprack_6_pc.Storage.{
  Library, Loader, Desk, Preset, give_file, add_player, cleared, save_preset, load_json, load_file,
}
use amprack_6_pc.Storage.Loaded.{
  plugins_of, panel_of, panels_of, give_found, files_after, load_json-Shows, load_json-faults,
}
use amprack_6_pc.Decimal.{keyed}
use amprack_6_pc.Decimal.Keys.{Increasing, keyed-Increasing, keyed-values}
use amprack_6_pc.Storage.Panels.{Known, AllKnown, saved_name, saved_file, panel-restored}

module _ {A F S B : Type 0} (l : Library) (k : Toolkit F S) (ld : Loader A B) (c : Catalogue A)
    (knobs : Plugin A → List (Knob F)) where
  map-map :
      (rs : List (Effect F × Plugin A))
      → map (save_effect k) (map (λ r. r.0) rs) ≡ map (λ r. save_effect k r.0) rs
  map-map [] = refl
  map-map (r ∷ rs) = ap (◌∷◌ (save_effect k r.0)) (map-map rs)

  length-switched_on : (ps : List (Plugin A)) → length (switched_on ps) ≤ length ps
  length-switched_on [] = omega arith
  length-switched_on (p ∷ ps) = elim (Bool-cases p.active) [
    | inl on ↦ omega (arith, ap length (switched_on-cons p ps on), length-switched_on ps)
    | inr off ↦ omega (arith, ap length (switched_on-skip p ps off), length-switched_on ps)
  ]

  -- The JSON value that savePreset writes.
  abbrev pub saved_json : List (Effect F) → Bytes → Bytes → Preset
  saved_json es filename description = record {
    name = behind_last slash filename;
    desc = description;
    controls = some (l.elements (keyed 0 (map (save_effect k) es)));
  }

  -- The plugins load the files of the effects in turn, each for its place in the rack.
  unfoldable pub own_files : ℕ → List (Effect F × Plugin A) → Studio B → Option (Studio B)
  own_files i [] st = some st
  own_files i ((e, p) ∷ rs) st =
      give_file ld i (save_effect k e).file (add_player ld p st) >>= λ st'. own_files (i + 1) rs st'

  found-saved :
      (e : Effect F) (p : Plugin A)
      → Known l k c knobs e p
      → found c (l.escape (save_effect k e).name) ≡ p ∷ []
  found-saved e p v = ap (found c) (saved_name l k c knobs e p v) ∙ v.by_name

  plugins_of-saved :
      (rs : List (Effect F × Plugin A))
      → AllKnown l k c knobs rs
      → plugins_of l k ld c knobs (map (λ r. save_effect k r.0) rs) ≡ map (λ r. r.1) rs
  unfolding plugins_of
  plugins_of-saved [] v = refl
  plugins_of-saved ((e, p) ∷ rs) (v, known) =
      rw (found-saved e p v) (ap (◌∷◌ p) (plugins_of-saved rs known))

  files_after-saved :
      (rs : List (Effect F × Plugin A)) (i : ℕ) (st : Studio B)
      → AllKnown l k c knobs rs
      → files_after l k ld c knobs i (map (λ r. save_effect k r.0) rs) st ≡ own_files i rs st
  unfolding files_after give_found own_files
  files_after-saved [] i st v = refl
  files_after-saved ((e, p) ∷ rs) i st (v, known) =
      let gives = give_file ld i (save_effect k e).file (add_player ld p st) in
      rw (found-saved e p v, saved_file l k c knobs e p v)
        (elim (Option-cases gives) [
          | inl fault ↦ rw fault refl
          | inr (st', given) ↦ rw given (files_after-saved rs (i + 1) st' known)
        ])

  module _ (clean : (v : F) → NoSemicolon (k.to_string v)) where
    panels_of-saved :
        (rs : List (Effect F × Plugin A))
        → AllKnown l k c knobs rs
        → panels_of l k ld c knobs (map (λ r. save_effect k r.0) rs)
          ≡ map (λ r. restored k r.0.controls) rs
    unfolding panels_of panel_of
    panels_of-saved [] v = refl
    panels_of-saved ((e, p) ∷ rs) (v, known) =
        rw (found-saved e p v, panel-restored l k c knobs clean e p v)
          (ap (◌∷◌ (restored k e.controls)) (panels_of-saved rs known))

  -- The desk when the preset has been saved.
  abbrev pub after_save : List (Effect F) → Bytes → Bytes → Desk A S B → Desk A S B
  after_save es filename description d = record d {
    studio = record d.studio { fs = (save_preset l k es filename description d.studio.fs).1 };
  }

  -- The rack has one to ten effects; the catalogue has a plugin with the same controls, none of them an
  -- LV2 atom port, for the name of each; the JSON library goes through increasing keys in order, parses
  -- its own text of the preset and escapes nothing in the names, files and controls; numbers are
  -- written without semicolons; and the file can be made.
  module _ (e : Effect F) (p : Plugin A) (rs : List (Effect F × Plugin A))
      (filename description : Bytes) (d : Desk A S B)
      (clean : (v : F) → NoSemicolon (k.to_string v))
      (ordered : (kvs : List (Bytes × Saved))
        → Increasing kvs
        → l.elements kvs ≡ map (λ x. x.1) kvs)
      (own : l.json.parse
          (l.json.dump (saved_json (e ∷ map (λ r. r.0) rs) filename description) ++ 10 ∷ [])
        ≡ some (saved_json (e ∷ map (λ r. r.0) rs) filename description))
      (known : AllKnown l k c knobs ((e, p) ∷ rs)) (few : length rs < 10)
      (long : length d.rack.engine.processor.slots ≡ 10)
      (can : d.studio.fs.writable filename ≡ true) where
    abbrev saved_desk : Desk A S B
    saved_desk = after_save (e ∷ map (λ r. r.0) rs) filename description d

    abbrev saved_list : List Saved
    saved_list = map (λ r. save_effect k r.0) ((e, p) ∷ rs)

    few_on : length (switched_on (plugins_of l k ld c knobs saved_list)) ≤ 10
    few_on = omega (
      arith,
      few,
      ap (λ q. length (switched_on q)) (plugins_of-saved ((e, p) ∷ rs) known),
      length-switched_on (map (λ r. r.1) ((e, p) ∷ rs)),
      length-map (λ (r : Effect F × Plugin A). r.1) ((e, p) ∷ rs),
    )

    saved_controls :
        (saved_json (e ∷ map (λ r. r.0) rs) filename description).controls ≡ some saved_list
    saved_controls =
        let saved = map (save_effect k) (e ∷ map (λ r. r.0) rs) in
        let same : saved ≡ saved_list = ap (◌∷◌ (save_effect k e)) (map-map rs) in
        let in_order : l.elements (keyed 0 saved) ≡ saved =
          ordered (keyed 0 saved) (
            keyed-Increasing 0 saved (
              omega (
                arith,
                few,
                length-map (save_effect k) (map (λ r. r.0) rs),
                length-map (λ (r : Effect F × Plugin A). r.0) rs,
              )))
          ∙ keyed-values 0 saved in
        ap some (in_order ∙ same)

    load_file-reads :
        load_file l k ld c knobs filename saved_desk
        ≡ load_json l k ld c knobs
            (saved_json (e ∷ map (λ r. r.0) rs) filename description)
            saved_desk
    unfolding save_preset load_file get_preset
    load_file-reads =
        ap (λ o. o >>= λ j'. load_json l k ld c knobs j' saved_desk)
          (filename_to_json-json_to_filename l.json
            (saved_json (e ∷ map (λ r. r.0) rs) filename description) filename d.studio.fs own can)

    -- The rack has one to ten effects; the catalogue has a plugin with the same controls, none of them an
    -- LV2 atom port, for the name of each; the JSON library goes through increasing keys in order, parses
    -- its own text of the preset and escapes nothing in the names, files and controls; numbers are
    -- written without semicolons; and the file can be made. Then savePreset succeeds. Where the plugins' loads of
    -- the files of the effects, in turn and each for its place, run without a fault, loading the preset
    -- gives the rack the plugins in their order, which the audio thread goes through where they are
    -- switched on; gives a new widget to each, whose sliders have the values that were saved; and loads
    -- the files.
    pub load_file-save_preset :
        (st : Studio B)
        → own_files 0 ((e, p) ∷ rs) (cleared saved_desk.studio) ≡ some st
        → ((save_preset l k (e ∷ map (λ r. r.0) rs) filename description d.studio.fs).0 ≡ true)
          × ((d' : Desk A S B) × (load_file l k ld c knobs filename saved_desk ≡ some d')
              × Shows c d.rack.uiv d'.rack (p ∷ map (λ r. r.1) rs)
              × (d'.panels
                  ≡ d.panels ++ restored k e.controls ∷ map (λ r. restored k r.0.controls) rs)
              × (d'.studio ≡ st))
    unfolding save_preset get_preset
    load_file-save_preset st files =
        let all = (e, p) ∷ rs in
        let (d', run, shows, panels, studio) =
          load_json-Shows l k ld c knobs saved_list
            (saved_json (e ∷ map (λ r. r.0) rs) filename description) saved_desk st saved_controls
            long few_on (files_after-saved all 0 (cleared saved_desk.studio) known ∙ files) in
        (
          refl,
          (
            d',
            load_file-reads ∙ run,
            subst (Shows c d.rack.uiv d'.rack) (plugins_of-saved all known) shows,
            panels ∙ ap (λ q. d.panels ++ q) (panels_of-saved clean all known),
            studio,
          ),
        )

    -- The rack has one to ten effects; the catalogue has a plugin with the same controls, none of them an
    -- LV2 atom port, for the name of each; the JSON library goes through increasing keys in order, parses
    -- its own text of the preset and escapes nothing in the names, files and controls; numbers are
    -- written without semicolons; and the file can be made. The first effect has a sound file
    -- that libsndfile opens, and liblilv makes its plugin, whose LADSPA descriptor no constructor sets. Then the preset
    -- is saved, and loading it is a fault.
    pub load_file-sound_faults :
        (name : String) (info : SoundInfo B)
        → (save_effect k e).file ≡ some (name, 0)
        → ld.sf_open (ld.bytes name) ≡ some info
        → (ld.player_of p).kind ≡ lilv
        → follow (ld.player_of p).descriptor ≡ false
        → ((save_preset l k (e ∷ map (λ r. r.0) rs) filename description d.studio.fs).0 ≡ true)
          × (load_file l k ld c knobs filename saved_desk ≡ none)
    unfolding save_preset get_preset own_files give_file add_player
    load_file-sound_faults name info file opens kind wild =
        let all = (e, p) ∷ rs in
        let st : Studio B = record saved_desk.studio { players = ld.player_of p ∷ [] } in
        let fault : set_plugin_audio_file ld.sf_open 0 (ld.bytes name) st ≡ none =
          (set_plugin_audio_file-lilv ld.sf_open 0 (ld.bytes name) st (ld.player_of p) refl kind
              wild).0
            info opens in
        let given : give_file ld 0 (save_effect k e).file st ≡ none =
          ap (λ o. give_file ld 0 o st) file ∙ fault in
        let files : own_files 0 all (cleared saved_desk.studio) ≡ none =
          ap (λ o. o >>= λ st'. own_files 1 rs st') given in
        (
          refl,
          load_file-reads
              ∙ load_json-faults l k ld c knobs saved_list
                  (saved_json (e ∷ map (λ r. r.0) rs) filename description) saved_desk
                  saved_controls long few_on
                  (files_after-saved all 0 (cleared saved_desk.studio) known ∙ files),
        )
