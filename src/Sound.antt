-- ===== src/Sound.antt =====
-- snd.h, snd.cc, Plugin.cpp's `setBuffer` and engine.cc's `set_plugin_audio_file` and
-- `set_plugin_file`: a file is read and its memory given to a plugin.
pub mod Reading
pub mod Memory
pub mod Dangling
mod Tests
use amprack_6_pc.Base.{
  ℕ, ◌+◌, ◌*◌, ◌%◌, ◌^◌, ltb, leb, Bool, true, false, not, Option, none, some, List, [], ◌∷◌, ◌++◌,
  length, get_elem?, set, take, if◌then◌else◌, ◌>>=◌, ◌>>◌, assert,
}
use amprack_6_pc.Plugin.{PluginType, ladspa, lv2, lilv}
use amprack_6_pc.Files.{Bytes, FileSystem, read, copy_file, behind_last, slash}

-- A block of memory, on the heap or in the frame of a call: an integer, samples or a text. It is dead after
-- `free` or at the end of the call. An address is an index into the list of all blocks.
pub data Content (A : Type 0) : Type 0 where
  int : ℕ → Content A
  floats : List A → Content A
  text : Bytes → Content A

pub record Block (A : Type 0) : Type 0 where
  pub content : Content A
  pub live : Bool

module _ {A : Type 0} where
  abbrev pub alloc : Content A → List (Block A) → ℕ × List (Block A)
  alloc c m = (length m, m ++ record { content = c; live = true } ∷ [])

  -- Freeing what is not live is a fault.
  pub free : ℕ → List (Block A) → Option (List (Block A))
  free a m = do b ← get_elem? m a; assert b.live; some (set m a (record b { live = false }))

-- libsndfile's view of a file: frames of `channels` samples each, and how many of them can be read.
pub record SoundInfo (A : Type 0) : Type 0 where
  pub frames : ℕ
  pub channels : ℕ
  pub readable : ℕ
  pub samples : List A

-- A `sf_count_t` as an `int`, of which those from 2 ^ 31 on stand for the negative ones.
abbrev pub narrow : ℕ → ℕ
narrow n = n % 2 ^ 32

abbrev pub float_size : ℕ
float_size = 4

-- `SoundFile`: the addresses of `data` and `len`.
pub record SoundFile : Type 0 where
  pub data_at : ℕ
  pub len : ℕ

module _ {A : Type 0} where
  -- `snd_read`, for what `sf_open` gave: `none` inside for NULL. The frames are read into a block of
  -- `sizeof (float) * len + 1` bytes; a write past it is a fault. The number of frames is narrowed to an
  -- `int`. A negative one asks for nearly 2 ^ 64 bytes, which are not given: that is a fault here too.
  pub snd_read : Option (SoundInfo A) → List (Block A) → Option (Option SoundFile × List (Block A))
  snd_read none m = some (none, m)
  snd_read (some f) m = do
    let n = narrow f.frames
    assert (ltb n 2147483648)
    let len = alloc (int n) m
    assert (leb (float_size * (f.readable * f.channels)) (float_size * n + 1))
    let data_at = alloc (floats (take (f.readable * f.channels) f.samples)) len.1
    some (some (record { data_at = data_at.0; len = len.0 }), data_at.1)

  -- The destructor, which `delete` runs.
  pub delete_sound : SoundFile → List (Block A) → Option (List (Block A))
  unfolding free
  delete_sound sf m = do m' ← free sf.data_at m; free sf.len m'

-- A pointer member: `wild` is one that no constructor sets.
pub data Pointer : Type 0 where
  null wild valid : Pointer

unfoldable pub follow : Pointer → Bool
follow null = false
follow wild = false
follow valid = true

unfoldable pub is_null : Pointer → Bool
is_null null = true
is_null wild = false
is_null valid = false

-- The part of a plugin that these operations use; `connections` are the calls of `connect_port`.
pub record Player : Type 0 where
  pub lv2_name : Bytes
  pub kind : PluginType
  pub descriptor : Pointer
  pub lv2_descriptor : Pointer
  pub connections : List (ℕ × ℕ)
  pub loaded_file_name : Bytes
  pub loaded_file_type : Option ℕ

pub record Studio (A : Type 0) : Type 0 where
  pub players : List Player
  pub bypass : Bool
  pub memory : List (Block A)
  pub fs : FileSystem
  pub home : Bytes

-- "/amprack/models/"
abbrev pub models : Bytes
models =
    47 ∷ 97 ∷ 109 ∷ 112 ∷ 114 ∷ 97 ∷ 99 ∷ 107 ∷ 47 ∷ 109 ∷ 111 ∷ 100 ∷ 101 ∷ 108 ∷ 115 ∷ 47 ∷ []

-- The two calls of `connect_port`, through a descriptor.
pub connect_both : Pointer → ℕ → ℕ → Player → Option Player
unfolding follow
connect_both through a b p = do
  assert (follow through)
  some (record p { connections = p.connections ++ (99, a) ∷ (100, b) ∷ [] })

-- The descriptor that `setBuffer` uses.
pub buffer_descriptor : PluginType → Player → Pointer
buffer_descriptor lv2 p = p.lv2_descriptor
buffer_descriptor ladspa p = p.descriptor
buffer_descriptor lilv p = p.descriptor

module _ {A : Type 0} where
  -- `setBuffer`; `read_bytes` is a parameter, in the frame of the call.
  pub set_buffer : ℕ → ℕ → Player → List (Block A) → Option (Player × List (Block A))
  unfolding connect_both buffer_descriptor free
  set_buffer buffer n p m = do
    let read_bytes = alloc (int n) m
    p' ← connect_both (buffer_descriptor p.kind p) read_bytes.0 buffer p
    m' ← free read_bytes.0 read_bytes.1
    some (p', m')

  -- `*sf->len`
  pub load_int : ℕ → List (Block A) → Option ℕ
  load_int a m = do
    b ← get_elem? m a
    assert b.live
    elim b.content [ int n ↦ some n | floats xs ↦ none | text t ↦ none ]

  -- What both operations do in the end: the name and the type of the file, and its copy among the
  -- models. The directory is made before; what it takes to make it is part of `writable`.
  pub keep_file : ℕ → Bytes → ℕ → Player → Studio A → Studio A
  keep_file index filename kind p s = record s {
    players =
        set s.players index
          (record p { loaded_file_name = filename; loaded_file_type = some kind });
    bypass = false;
    fs =
        copy_file filename (s.home ++ (models ++ (p.lv2_name ++ (47 ∷ behind_last slash filename))))
          s.fs;
  }

  -- `sf_open` is that of libsndfile.
  pub set_plugin_audio_file :
      (Bytes → Option (SoundInfo A)) → ℕ → Bytes → Studio A → Option (Studio A)
  unfolding snd_read load_int set_buffer delete_sound keep_file
  set_plugin_audio_file sf_open index filename s = snd_read (sf_open filename) s.memory >>= λ r.
      elim r.0 as (λ _. Option (Studio A)) [
        | none ↦ some (record s { memory = r.1 })
        | some sf ↦ do
          p ← get_elem? s.players index
          n ← load_int sf.len r.1
          q ← set_buffer sf.data_at n p r.1
          m ← delete_sound sf q.1
          some (keep_file index filename 0 q.0 (record s { memory = m }))
      ]

  -- `size` is a local of the call, and the text that `buffer.str ()` returns lives until the end of its
  -- statement.
  pub set_plugin_file : ℕ → Bytes → Studio A → Option (Studio A)
  unfolding connect_both is_null free keep_file
  set_plugin_file index filename s = do
    let content = read s.fs filename
    let size = alloc (int (length content)) s.memory
    p ← get_elem? s.players index
    let buffer = alloc (text content) size.1
    p' ←
        connect_both (if is_null p.lv2_descriptor then p.descriptor else p.lv2_descriptor) size.0
          buffer.0 p
    m ← free buffer.0 buffer.1
    m' ← free size.0 m
    some (keep_file index filename 1 p' (record s { memory = m' }))
