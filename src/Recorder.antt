-- ===== src/Recorder.antt =====
-- FileWriter.h and FileWriter.cpp: `FileWriter`, which writes the processed blocks to a WAV, Opus
-- or MP3 file between `startRecording` and `stopRecording`.
pub mod Controls
pub mod Faults
pub mod Pipeline
pub mod Session
mod Tests
use Prim.Native.String.{String}
use Prim.Native.String.{◌++◌ as string_append}
use amprack_6_pc.Base.{
  ℕ, zero, suc, ◌+◌, ◌*◌, ◌-◌, ◌/◌, ◌==◌, ◌||◌, not, Bool, true, false, Option, none, some, List,
  [], ◌∷◌, ◌++◌, length, take, drop, if◌then◌else◌, ◌>>=◌, ◌>>◌, assert,
}
use amprack_6_pc.Manager.{AudioBuffer}

-- `FileType`. No enumerator is 987, so the branch of `disk_write` for that value is never taken.
pub data FileType : Type 0 where
  wav opus mp3 : FileType

-- libsndfile, libopusenc and LAME, which are not part of the program.
pub record Codecs (A : Type 0) : Type 1 where
  pub format_ok : ℕ → Bool
  pub sf_open : String → ℕ → Bool
  -- how many of the frames are written after those that are in the file
  pub sf_write : List A → List A → ℕ
  pub ope_create : String → ℕ → Bool
  pub fopen : String → Bool
  pub Lame : Type 0
  pub lame_init : ℕ → Lame
  -- an encoder call: its bytes, or `none` for a negative result, and the encoder afterwards
  pub lame_encode : Lame → List A → ℕ → Option (List ℕ) × Lame
  pub lame_flush : Lame → List ℕ

-- A file with what has been written to it.
pub record OutputFile (B : Type 0) : Type 0 where
  pub file_name : String
  pub content : List B

-- A file that was closed.
pub data Closed (A : Type 0) : Type 0 where
  samples : OutputFile A → Closed A
  bytes : OutputFile ℕ → Closed A

-- Null pointers are `none`. `num_channels` is the 1 that it starts with: nothing in the program
-- calls `setChannels`. `closed` lists the files that were closed, oldest first.
pub record Writer {A : Type 0} (c : Codecs A) : Type 0 where
  pub ready : Bool
  pub file_type : FileType
  pub filename : String
  pub samplerate : ℕ
  pub block_size : ℕ
  pub soundfile : Option (OutputFile A)
  pub ogg_opus_enc : Option (OutputFile A)
  pub lame : Option c.Lame
  pub output_file : Option (OutputFile ℕ)
  pub disk_writes : ℕ
  pub closed : List (Closed A)

-- `extensions`
pub extension : FileType → String
extension wav = ".wav"
extension opus = ".ogg"
extension mp3 = ".mp3"

pub empty_file : {B : Type 0} → String → OutputFile B
empty_file name = record { file_name = name; content = [] }

-- `8192 * 3`, the size of the flush buffer.
abbrev pub flush_size : ℕ
flush_size = 24576

-- The flush buffer: the encoder's last bytes over `junk`, what `malloc` left there.
pub flush_bytes : List ℕ → List ℕ → List ℕ
flush_bytes junk flushed = flushed ++ drop (length flushed) junk

module _ {A : Type 0} {c : Codecs A} where
  -- `(block_size * 1.25) + 7200`, truncated as LAME receives it.
  pub mp3_buffer_size : Writer c → ℕ
  mp3_buffer_size w = w.block_size * 5 / 4 + 7200

  pub set_sample_rate : ℕ → Writer c → Writer c
  set_sample_rate rate w = record w { samplerate = if rate == 0 then 48000 else rate }

  pub set_file_name : String → Writer c → Writer c
  unfolding extension
  set_file_name name w = record w { filename = string_append name (extension w.file_type) }

  pub set_file_type : FileType → Writer c → Writer c
  set_file_type t w = record w { file_type = t }

  -- The part of `openFile` for each type. A soundfile or an encoder that cannot be made is null.
  -- The controls of the Opus encoder, which libopusenc is asked for on a null one too, are left out.
  pub open_as : FileType → Writer c → Writer c
  unfolding empty_file
  open_as wav w = record w {
    soundfile = if c.sf_open w.filename w.samplerate then some (empty_file w.filename) else none;
  }
  open_as opus w = record w {
    output_file = none;
    ogg_opus_enc =
        if c.ope_create w.filename w.samplerate then some (empty_file w.filename) else none;
  }
  open_as mp3 w = record w {
    lame = some (c.lame_init w.samplerate);
    output_file = if c.fopen w.filename then some (empty_file w.filename) else none;
  }

  pub open_file : Writer c → Writer c
  unfolding open_as
  open_file w = if c.format_ok w.samplerate then open_as w.file_type w else w

  -- Nothing is checked after `openFile`.
  pub start_recording : Writer c → Writer c
  unfolding open_file
  start_recording w = record (open_file w) { ready = true }

  -- `fwrite` to `outputFile`; a null file is a fault.
  pub append_bytes : List ℕ → Writer c → Option (Writer c)
  append_bytes bs w = do
    f ← w.output_file
    some (record w { output_file = some (record f { content = f.content ++ bs }) })

  -- The MP3 branch of `disk_write`: a negative result of the encoder drops the block.
  pub write_mp3 : List A → Writer c → Option (ℕ × Writer c)
  unfolding append_bytes mp3_buffer_size
  write_mp3 frames w = do
    enc ← w.lame
    let result = c.lame_encode enc frames (mp3_buffer_size w)
    let w' = record w { lame = some result.1 }
    elim result.0 [ none ↦ some (0, w') | some bs ↦ do w'' ← append_bytes bs w'; some (0, w'') ]

  -- The Opus branch; libopusenc buffers and packs the samples by itself.
  pub write_opus : List A → Writer c → Option (ℕ × Writer c)
  write_opus frames w = do
    f ← w.ogg_opus_enc
    some (1, record w { ogg_opus_enc = some (record f { content = f.content ++ frames }) })

  -- The WAV branch. On a null soundfile libsndfile writes no frame.
  pub write_wav : List A → Writer c → Option (ℕ × Writer c)
  write_wav frames w = elim w.soundfile [
    | none ↦ some (0, w)
    | some f ↦
        let n = c.sf_write f.content frames in
        some (
          if n == length frames then 1 else 0,
          record w { soundfile = some (record f { content = f.content ++ take n frames }) },
        )
  ]

  pub write_as : FileType → List A → Writer c → Option (ℕ × Writer c)
  unfolding write_wav write_opus write_mp3
  write_as wav frames w = write_wav frames w
  write_as opus frames w = write_opus frames w
  write_as mp3 frames w = write_mp3 frames w

  -- The frames are the first `pos` samples of the buffer. The results are those of the function.
  pub disk_write : AudioBuffer A → Writer c → Option (ℕ × Writer c)
  unfolding write_as
  disk_write b w =
      if not w.ready || b.pos == 0
      then some (0, w)
      else write_as w.file_type (take b.pos b.samples)
          (record w { disk_writes = w.disk_writes + 1 })

  -- `closeFile`'s MP3 branch: all of the flush buffer is written, whatever the encoder returned.
  pub close_mp3 : List ℕ → Writer c → Option (Writer c)
  unfolding append_bytes flush_bytes
  close_mp3 junk w = do
    enc ← w.lame
    w' ← append_bytes (take flush_size (flush_bytes junk (c.lame_flush enc))) w
    f ← w'.output_file
    some (record w' { output_file = none; lame = none; closed = w'.closed ++ bytes f ∷ [] })

  close_plain : Writer c → Writer c
  close_plain w = elim w.output_file [
    | none ↦ w
    | some f ↦ record w { output_file = none; closed = w.closed ++ bytes f ∷ [] }
  ]

  close_opus : Writer c → Writer c
  close_opus w = elim w.ogg_opus_enc [
    | none ↦ w
    | some f ↦ record w { ogg_opus_enc = none; closed = w.closed ++ samples f ∷ [] }
  ]

  pub close_sound : Writer c → Writer c
  close_sound w = elim w.soundfile [
    | none ↦ w
    | some f ↦ record w { soundfile = none; closed = w.closed ++ samples f ∷ [] }
  ]

  pub close_as : FileType → List ℕ → Writer c → Option (Writer c)
  unfolding close_mp3 close_plain close_opus
  close_as wav junk w = some (close_plain w)
  close_as opus junk w = some (close_opus w)
  close_as mp3 junk w = close_mp3 junk w

  pub close_file : List ℕ → Writer c → Option (Writer c)
  unfolding close_as close_sound
  close_file junk w = do w' ← close_as w.file_type junk w; some (close_sound w')

  pub stop_recording : List ℕ → Writer c → Option (Writer c)
  unfolding close_file
  stop_recording junk w = close_file junk (record w { ready = false })
