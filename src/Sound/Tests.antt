-- ===== src/Sound/Tests.antt =====
-- engine.cc: a plugin of liblilv and one of LADSPA, and two files.
use amprack_6_pc.Base.{ℕ, ◌≤◌, ◌<◌, ◌≡◌, refl, arith, true, false, Option, none, some, [], ◌∷◌}
use amprack_6_pc.Plugin.{PluginType, ladspa, lilv}
use amprack_6_pc.Files.{Bytes}
use amprack_6_pc.Sound.{
  int, floats, SoundInfo, snd_read, Pointer, null, wild, valid, follow, is_null, buffer_descriptor,
  Player, Studio, set_plugin_audio_file, set_plugin_file,
}
use amprack_6_pc.Sound.Memory.{live}
use amprack_6_pc.Sound.Reading.{snd_read_lem}
use amprack_6_pc.Sound.Dangling.{Dangles, set_plugin_file-Dangles, set_plugin_audio_file-Dangles}

abbrev mono : SoundInfo ℕ
mono = record { frames = 2; channels = 1; readable = 2; samples = 5 ∷ 6 ∷ [] }

abbrev sf_open : Bytes → Option (SoundInfo ℕ)
sf_open [] = none
sf_open (c ∷ cs) = some mono

abbrev player : PluginType → Pointer → Pointer → Player
player kind descriptor lv2_descriptor = record {
  lv2_name = 112 ∷ [];
  kind = kind;
  descriptor = descriptor;
  lv2_descriptor = lv2_descriptor;
  connections = [];
  loaded_file_name = [];
  loaded_file_type = none;
}

abbrev studio : Studio ℕ
studio = record {
  players = player lilv wild valid ∷ player ladspa valid null ∷ [];
  bypass = false;
  memory = [];
  fs = record {
    files = (7 ∷ [], 1 ∷ 2 ∷ 3 ∷ []) ∷ [];
    directories = λ files p. none;
    writable = λ p. true;
  };
  home = 104 ∷ [];
}

snd_read_lem_example :
    (1 ≤ 1
      → 2 < 2147483648
      → snd_read (some mono) []
        ≡ some (
          some (record { data_at = 1; len = 0 }),
          live (int 2) ∷ live (floats (5 ∷ 6 ∷ [])) ∷ [],
        ))
    × (2 ≤ 1 → snd_read (some mono) [] ≡ none)
    × (1 ≤ 1 → 2147483648 ≤ 2 → snd_read (some mono) [] ≡ none)
snd_read_lem_example = snd_read_lem mono [] refl (omega arith)

set_plugin_file-Dangles_example :
    (s' : Studio ℕ) × (set_plugin_file 0 (7 ∷ []) studio ≡ some s')
    × Dangles 0 (7 ∷ []) 1 (player lilv wild valid) studio s'
unfolding follow is_null
set_plugin_file-Dangles_example =
    set_plugin_file-Dangles 0 (7 ∷ []) studio (player lilv wild valid) refl refl

set_plugin_audio_file-Dangles_example :
    (s' : Studio ℕ) × (set_plugin_audio_file sf_open 1 (7 ∷ []) studio ≡ some s')
    × Dangles 1 (7 ∷ []) 0 (player ladspa valid null) studio s'
unfolding follow buffer_descriptor
set_plugin_audio_file-Dangles_example =
    set_plugin_audio_file-Dangles sf_open mono 1 (7 ∷ []) studio (player ladspa valid null) refl
      (omega arith) refl refl refl
