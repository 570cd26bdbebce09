-- ===== src/Sound/Dangling.antt =====
-- engine.cc: what the ports of a plugin are connected to after it was given a file.
use amprack_6_pc.Base.{
  get_elem?-set_there, ℕ, ◌+◌, ◌≡◌, refl, ap, ◌∙◌, true, false, Option, none, some, List, [], ◌∷◌,
  ◌++◌, length, ◌*◌, ◌<◌, leb, ltb, lt→ltb, arith, take, inl, inr, Bool-cases, get_elem?,
  if◌then◌else◌,
}
use amprack_6_pc.Plugin.{lilv}
use amprack_6_pc.Files.{Bytes, read, copy_file, behind_last, slash}
use amprack_6_pc.Sound.{
  Block, float_size, Content, int, floats, text, SoundInfo, narrow, snd_read, delete_sound, follow,
  is_null, Player, Studio, models, connect_both, buffer_descriptor, set_buffer, load_int, keep_file,
  set_plugin_audio_file, set_plugin_file,
}
use amprack_6_pc.Sound.Reading.{narrow-small, snd_read-fits, snd_read-negative, snd_read-overflows}
use amprack_6_pc.Sound.Memory.{
  live, dead, IsDead, free-inner, free-last, get_elem?-inner, first-IsDead, second-IsDead,
  third-IsDead,
}

module _ {A : Type 0} where
  -- The player at `index` has the file, and its ports 99 and 100 are connected to blocks that are dead.
  pub record Dangles (index : ℕ) (filename : Bytes) (kind : ℕ) (p : Player) (s s' : Studio A)
      : Type 0 where
    pub player : Player
    pub at_index : get_elem? s'.players index ≡ some player
    pub size_at : ℕ
    pub data_at : ℕ
    pub connected : player.connections ≡ p.connections ++ (99, size_at) ∷ (100, data_at) ∷ []
    pub size_dead : IsDead s'.memory size_at
    pub data_dead : IsDead s'.memory data_at
    pub file : player.loaded_file_name ≡ filename
    pub file_type : player.loaded_file_type ≡ some kind
    pub bypass : s'.bypass ≡ false
    pub copied :
        s'.fs
        ≡ copy_file filename
            (s.home ++ (models ++ (p.lv2_name ++ (47 ∷ behind_last slash filename))))
            s.fs

  -- With a plugin at the index, whose descriptor for this can be followed, set_plugin_file succeeds. The
  -- plugin keeps the name of the file, which is copied among the models, and bypass is clear; but the
  -- ports for the size and the text are left connected to memory that is dead.
  pub set_plugin_file-Dangles :
      (index : ℕ) (filename : Bytes) (s : Studio A) (p : Player)
      → get_elem? s.players index ≡ some p
      → follow (if is_null p.lv2_descriptor then p.descriptor else p.lv2_descriptor) ≡ true
      → (s' : Studio A) × (set_plugin_file index filename s ≡ some s')
        × Dangles index filename 1 p s s'
  unfolding set_plugin_file connect_both keep_file
  set_plugin_file-Dangles index filename s p there ok =
      let size = int (length (read s.fs filename)) in
      let content = text (read s.fs filename) in
      let p' : Player = record p {
        connections =
            p.connections
            ++ (99, length s.memory) ∷ (100, length (s.memory ++ live size ∷ [])) ∷ [];
      } in
      let m' = s.memory ++ dead size ∷ dead content ∷ [] in
      (
        keep_file index filename 1 p' (record s { memory = m' }),
        rw (set_plugin_file, there, ok)
            (rw (free-last (s.memory ++ live size ∷ []) content)
              (rw (free-inner s.memory (dead content ∷ []) size) refl)),
        record {
          player = record p' { loaded_file_name = filename; loaded_file_type = some 1 };
          at_index =
              get_elem?-set_there s.players index p
                (record p' { loaded_file_name = filename; loaded_file_type = some 1 }) there;
          size_at = length s.memory;
          data_at = length (s.memory ++ live size ∷ []);
          connected = refl;
          size_dead = first-IsDead s.memory (dead content ∷ []) size;
          data_dead = second-IsDead s.memory [] size content;
          file = refl;
          file_type = refl;
          bypass = refl;
          copied = refl;
        },
      )

  -- `setBuffer` on the memory that `snd_read` made, for a descriptor that can be followed.
  set_buffer-connects :
      (m : List (Block A)) (buffer n : ℕ) (p : Player)
      → follow (buffer_descriptor p.kind p) ≡ true
      → set_buffer buffer n p m
        ≡ some (
          record p { connections = p.connections ++ (99, length m) ∷ (100, buffer) ∷ [] },
          m ++ dead (int n) ∷ [],
        )
  unfolding set_buffer connect_both
  set_buffer-connects m buffer n p ok = rw (set_buffer, ok) (rw (free-last m (int n)) refl)

  set_buffer-faults :
      (m : List (Block A)) (buffer n : ℕ) (p : Player)
      → follow (buffer_descriptor p.kind p) ≡ false
      → set_buffer buffer n p m ≡ none
  unfolding set_buffer connect_both
  set_buffer-faults m buffer n p wild = rw (set_buffer, wild) refl

  load_int-inner :
      (m rest : List (Block A)) (n : ℕ)
      → load_int (length m) ((m ++ live (int n) ∷ []) ++ rest) ≡ some n
  unfolding load_int
  load_int-inner m rest n = rw (get_elem?-inner m rest (live (int n))) refl

  delete_sound-frees :
      (m rest : List (Block A)) (a b : Content A)
      → delete_sound
          (record { data_at = length (m ++ live a ∷ []); len = length m })
          (((m ++ live a ∷ []) ++ live b ∷ []) ++ rest)
        ≡ some (m ++ dead a ∷ dead b ∷ rest)
  unfolding delete_sound
  delete_sound-frees m rest a b =
      rw (free-inner (m ++ live a ∷ []) rest b) (free-inner m (dead b ∷ rest) a)

  -- With a file of fewer than 2 ^ 31 frames that libsndfile opens and whose samples fit into their block, and a plugin at the index whose
  -- descriptor for this can be followed, set_plugin_audio_file succeeds. The plugin keeps the name of the
  -- file, which is copied among the models, and bypass is clear; but the ports for the size and
  -- the samples are left connected to memory that is dead.
  pub set_plugin_audio_file-Dangles :
      (sf_open : Bytes → Option (SoundInfo A)) (f : SoundInfo A) (index : ℕ) (filename : Bytes)
      (s : Studio A) (p : Player)
      → sf_open filename ≡ some f
      → f.frames < 2147483648
      → leb (float_size * (f.readable * f.channels)) (float_size * f.frames + 1) ≡ true
      → get_elem? s.players index ≡ some p
      → follow (buffer_descriptor p.kind p) ≡ true
      → (s' : Studio A) × (set_plugin_audio_file sf_open index filename s ≡ some s')
        × Dangles index filename 0 p s s'
  unfolding set_plugin_audio_file keep_file
  set_plugin_audio_file-Dangles sf_open f index filename s p opens small fits there ok =
      let same = narrow-small f.frames small in
      let short : ltb (narrow f.frames) 2147483648 ≡ true =
        lt→ltb (narrow f.frames) 2147483648 (omega (arith, same)) in
      let fits' : leb (float_size * (f.readable * f.channels)) (float_size * narrow f.frames + 1)
          ≡ true =
        ap (λ n. leb (float_size * (f.readable * f.channels)) (float_size * n + 1)) same ∙ fits in
      let size = int (narrow f.frames) in
      let samples = floats (take (f.readable * f.channels) f.samples) in
      let data_at = length (s.memory ++ live size ∷ []) in
      let m₂ = (s.memory ++ live size ∷ []) ++ live samples ∷ [] in
      let p' : Player = record p {
        connections = p.connections ++ (99, length m₂) ∷ (100, data_at) ∷ [];
      } in
      let m' = s.memory ++ dead size ∷ dead samples ∷ dead (int (narrow f.frames)) ∷ [] in
      (
        keep_file index filename 0 p' (record s { memory = m' }),
        rw (set_plugin_audio_file, opens)
            (rw (snd_read-fits f s.memory short fits') (
              rw (there, load_int-inner s.memory (live samples ∷ []) (narrow f.frames))
                (rw (set_buffer-connects m₂ data_at (narrow f.frames) p ok) (
                  rw (delete_sound-frees s.memory (dead (int (narrow f.frames)) ∷ []) size samples)
                    refl)))),
        record {
          player = record p' { loaded_file_name = filename; loaded_file_type = some 0 };
          at_index =
              get_elem?-set_there s.players index p
                (record p' { loaded_file_name = filename; loaded_file_type = some 0 }) there;
          size_at = length m₂;
          data_at = data_at;
          connected = refl;
          size_dead = third-IsDead s.memory [] size samples (int (narrow f.frames));
          data_dead = second-IsDead s.memory (dead (int (narrow f.frames)) ∷ []) size samples;
          file = refl;
          file_type = refl;
          bypass = refl;
          copied = refl;
        },
      )

  -- A plugin made by liblilv has no LADSPA descriptor, and set_plugin_audio_file follows the pointer for one,
  -- unless the file cannot be opened, when nothing happens.
  pub set_plugin_audio_file-lilv :
      (sf_open : Bytes → Option (SoundInfo A)) (index : ℕ) (filename : Bytes) (s : Studio A)
      (p : Player)
      → get_elem? s.players index ≡ some p
      → p.kind ≡ lilv
      → follow p.descriptor ≡ false
      → ((f : SoundInfo A)
          → sf_open filename ≡ some f
          → set_plugin_audio_file sf_open index filename s ≡ none)
        × (sf_open filename ≡ none → set_plugin_audio_file sf_open index filename s ≡ some s)
  unfolding set_plugin_audio_file snd_read buffer_descriptor
  set_plugin_audio_file-lilv sf_open index filename s p there kind wild = (
    λ f opens. elim (Bool-cases (ltb (narrow f.frames) 2147483648)) [
      | inr negative ↦
          rw (set_plugin_audio_file, opens) (rw (snd_read-negative f s.memory negative) refl)
      | inl short ↦
          elim (Bool-cases
            (leb (float_size * (f.readable * f.channels)) (float_size * narrow f.frames + 1))) [
              | inl fits ↦
                  let m = s.memory ++ live (int (narrow f.frames)) ∷ [] in
                  let samples = live (floats (take (f.readable * f.channels) f.samples)) in
                  rw (set_plugin_audio_file, opens)
                    (rw (snd_read-fits f s.memory short fits) (
                      rw (there, load_int-inner s.memory (samples ∷ []) (narrow f.frames))
                        (rw
                          (set_buffer-faults (m ++ samples ∷ []) (length m) (narrow f.frames) p
                            (ap (λ t. follow (buffer_descriptor t p)) kind ∙ wild))
                          refl)))
              | inr over ↦
                  rw (set_plugin_audio_file, opens) (rw (snd_read-overflows f s.memory over) refl)
            ]
    ],
    λ closed. rw (set_plugin_audio_file, closed) refl,
  )
