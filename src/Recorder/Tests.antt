-- ===== src/Recorder/Tests.antt =====
-- FileWriter.cpp on a recording of two short blocks of numbers.
use amprack_6_pc.Base.{
  ℕ, ◌++◌, ◌≡◌, refl, true, false, List, [], ◌∷◌, some, none, arith, length, replicate, ◌>>=◌,
  length-replicate,
}
use amprack_6_pc.Manager.{AudioBuffer, Manager, serve}
use amprack_6_pc.Manager.Blocks.{Block}
use amprack_6_pc.Manager.Delivery.{Holding}
use amprack_6_pc.Manager.Setup.{started, started-Holding}
use amprack_6_pc.Manager.Session.{Job, process_all}
use amprack_6_pc.Recorder.{Writer, Codecs, FileType, wav, mp3, samples, flush_size}
use amprack_6_pc.Recorder.Pipeline.{World, engine_functions, played}
use amprack_6_pc.Recorder.Controls.{Deck, engine_start, engine_stop, engine_recording-played}

-- A libsndfile that opens files at 48000 Hz, and a LAME that keeps back one byte.
abbrev lib : Codecs ℕ
lib = record {
  format_ok = λ _. true;
  sf_open = λ _ _. true;
  sf_write = λ _ ys. length ys;
  ope_create = λ _ _. true;
  fopen = λ _. true;
  Lame = Unit;
  lame_init = λ _. tt;
  lame_encode = λ e xs n. (some xs, e);
  lame_flush = λ _. 77 ∷ [];
}

abbrev locked : Codecs ℕ
locked = record lib { sf_open = λ _ _. false }

abbrev idle : {c : Codecs ℕ} → FileType → Writer c
idle t = record {
  ready = false;
  file_type = t;
  filename = "take.wav";
  samplerate = 48000;
  block_size = 4;
  soundfile = none;
  ogg_opus_enc = none;
  lame = none;
  output_file = none;
  disk_writes = 0;
  closed = [];
}

abbrev blocks : List (AudioBuffer ℕ)
blocks =
    record { overruns = 0; pos = 2; samples = 1 ∷ 2 ∷ 0 ∷ 0 ∷ []; raw = []; size = 0 }
    ∷ record { overruns = 0; pos = 3; samples = 3 ∷ 4 ∷ 5 ∷ 0 ∷ []; raw = []; size = 0 }
    ∷ []

abbrev encoding : Writer lib
encoding = record (idle mp3) {
  lame = some tt;
  output_file = some (record { file_name = "take.mp3"; content = 1 ∷ 2 ∷ [] });
}

abbrev junk : List ℕ
junk = replicate flush_size 0

-- The engine's two functions are registered; the rest of the program is the last dry block.
abbrev notify : Block ℕ → List ℕ → List ℕ
notify b p = b.dry

abbrev Engine : Type 0
Engine = Manager ℕ (World lib (List ℕ))

abbrev before : Engine
before = started [] (replicate 128 0) 4 0

abbrev wired : Engine
wired = record before {
  functions = engine_functions lib (List ℕ) notify ++ replicate 8 none;
  functions_count = 2;
}

before-Holding : Holding before []
before-Holding = started-Holding [] (replicate 128 0) 4 0 (length-replicate {A = ℕ} 128 0)

wired-Holding : Holding wired []
wired-Holding = record {
  first = before-Holding.first;
  start = before-Holding.start;
  inv = record {
    is_ready = before-Holding.inv.is_ready;
    allocated = before-Holding.inv.allocated;
    counter = before-Holding.inv.counter;
    queued = before-Holding.inv.queued;
    owned = before-Holding.inv.owned;
  };
  view = refl;
}

abbrev jobs : List (Job ℕ)
jobs =
    record { dry = 1 ∷ 2 ∷ []; wet = 3 ∷ 4 ∷ []; count = 2 }
    ∷ record { dry = 5 ∷ 6 ∷ []; wet = 7 ∷ 8 ∷ []; count = 1 }
    ∷ []

-- The file has the name that `put_time` gives it, below the home directory.
abbrev deck : Deck lib
deck = record {
  home = "/home/a/amprack";
  driver_rate = 44100;
  recording = false;
  file_writer = idle wav;
}

engine_recording-played_example :
    (m' : Engine) × (e : World lib (List ℕ)) × (d' : Deck lib) × ((process_all jobs wired >>= λ m.
    serve 3 0 m (some (engine_start "/26-11-2026 19-40-10" deck).file_writer, []))
      ≡ some (m', e))
    × ((e.0 >>= λ w.
          engine_stop [] (record (engine_start "/26-11-2026 19-40-10" deck) { file_writer = w }))
        ≡ some d')
    × (d'.file_writer.closed
        ≡ samples (record {
          file_name = "/home/a/amprack/26-11-2026 19-40-10.wav";
          content = 3 ∷ 4 ∷ 7 ∷ [];
        })
          ∷ [])
    × (d'.recording ≡ false)
unfolding played
engine_recording-played_example =
    engine_recording-played lib (List ℕ) jobs notify (replicate 8 none) 3 0 wired deck
      "/26-11-2026 19-40-10" [] [] wired-Holding
      (
        record { room = omega arith; dry_long = omega arith; wet_long = omega arith },
        (record { room = omega arith; dry_long = omega arith; wet_long = omega arith }, tt),
      )
      (omega arith) (omega arith) refl refl refl refl refl refl (λ xs ys. refl)
