-- ===== src/Recorder/Controls.antt =====
-- engine.cc: `startRecording` and `stopRecording`. A `FileWriter` starts with MP3 files, and nothing in the
-- program calls `setFileType`; the theorem is about one that was set to WAV.
use Prim.Native.String.{String, ◌++◌ as string_append}
use amprack_6_pc.Base.{
  ℕ, ◌≡◌, ◌≤◌, ◌<◌, ◌==◌, refl, ap, ◌∙◌, Bool, true, false, Option, none, some, List, [], ◌∷◌, ◌++◌,
  length, if◌then◌else◌, ◌>>=◌,
}
use amprack_6_pc.Manager.{AudioBuffer, Manager, serve}
use amprack_6_pc.Manager.Blocks.{Block}
use amprack_6_pc.Manager.Delivery.{Holding}
use amprack_6_pc.Manager.Session.{Job, AllFit, process_all}
use amprack_6_pc.Recorder.{
  Writer, Codecs, wav, samples, extension, set_file_name, set_sample_rate, start_recording,
  stop_recording,
}
use amprack_6_pc.Recorder.Pipeline.{World, engine_functions, played, recording_holds-played}

-- What the two read and change. `recording` is the processor's flag, which nothing reads.
pub record Deck {A : Type 0} (c : Codecs A) : Type 0 where
  pub home : String
  pub driver_rate : ℕ
  pub recording : Bool
  pub file_writer : Writer c

module _ {A : Type 0} {c : Codecs A} where
  -- `Engine::startRecording`, with the time of day as `std::put_time` writes it.
  pub engine_start : String → Deck c → Deck c
  unfolding set_file_name set_sample_rate start_recording
  engine_start stamp d = record d {
    file_writer =
        start_recording (
          set_sample_rate d.driver_rate (set_file_name (string_append d.home stamp) d.file_writer));
    recording = true;
  }

  -- `Engine::stopRecording`, with what `malloc` leaves in the flush buffer.
  pub engine_stop : List ℕ → Deck c → Option (Deck c)
  unfolding stop_recording
  engine_stop junk d = do
    w ← stop_recording junk d.file_writer
    some (record d { file_writer = w; recording = false })

  engine_stop-eq :
      (o : Option (Writer c)) (d : Deck c) (junk : List ℕ)
      → (o >>= λ w. engine_stop junk (record d { file_writer = w })) ≡ (
          (o >>= stop_recording junk) >>= λ w.
          some (record d { file_writer = w; recording = false }))
  unfolding engine_stop
  engine_stop-eq none d junk = refl
  engine_stop-eq (some w) d junk = refl

module _ {A : Type 0} (c : Codecs A) (P : Type 0) where
  -- The name of a recording, and the rate that is asked for.
  abbrev pub take_name : String → Deck c → String
  take_name stamp d = string_append (string_append d.home stamp) ".wav"

  abbrev pub take_rate : Deck c → ℕ
  take_rate d = if d.driver_rate == 0 then 48000 else d.driver_rate

  -- With the engine's two functions registered and nothing waiting, the engine starts a WAV
  -- recording, at most 128 blocks that fit are processed, the other thread has its turn, and the
  -- engine stops the recording: then exactly one more file is closed, which is named after the home
  -- directory and the time, and it holds the processed samples of all blocks, in order, when the
  -- library opens the file at the driver's rate, or at 48000 where that is 0, and writes all frames.
  pub engine_recording-played :
      (js : List (Job A)) (notify : Block A → P → P)
      (rest : List (Option (AudioBuffer A → World c P → World c P))) (fuel last : ℕ)
      (m : Manager A (World c P)) (d : Deck c) (stamp : String) (p : P) (junk : List ℕ)
      → Holding m []
      → AllFit m.buffer_size js
      → length js ≤ 128
      → length js < fuel
      → m.functions_count ≡ 2
      → m.functions ≡ engine_functions c P notify ++ rest
      → d.file_writer.file_type ≡ wav
      → d.file_writer.output_file ≡ none
      → c.format_ok (take_rate d) ≡ true
      → c.sf_open (take_name stamp d) (take_rate d) ≡ true
      → ((xs ys : List A) → c.sf_write xs ys ≡ length ys)
      → (m' : Manager A (World c P)) × (e : World c P) × (d' : Deck c) × ((process_all js m
            >>= λ m₁. serve fuel last m₁ (some (engine_start stamp d).file_writer, p))
          ≡ some (m', e))
        × ((e.0 >>= λ w. engine_stop junk (record (engine_start stamp d) { file_writer = w }))
            ≡ some d')
        × (d'.file_writer.closed
            ≡ d.file_writer.closed
              ++ samples (record { file_name = take_name stamp d; content = played js }) ∷ [])
        × (d'.recording ≡ false)
  unfolding engine_start engine_stop set_file_name set_sample_rate extension
  engine_recording-played js notify rest fuel last m d stamp p junk h fit few enough count functions
        t o ok opens full =
      let w : Writer c =
        set_sample_rate d.driver_rate (set_file_name (string_append d.home stamp) d.file_writer) in
      let named : w.filename ≡ take_name stamp d =
        ap (λ k. string_append (string_append d.home stamp) (extension k)) t in
      let (m', e, w', run, stops, closes) =
        recording_holds-played c P js notify rest fuel last m w p junk h fit few enough count
          functions t o ok (ap (λ n. c.sf_open n (take_rate d)) named ∙ opens) full in
      (
        m',
        e,
        record d { file_writer = w'; recording = false },
        run,
        engine_stop-eq e.0 (engine_start stamp d) junk
            ∙ ap (λ o. o >>= λ v. some (record d { file_writer = v; recording = false })) stops,
        closes
            ∙ ap
                (λ n.
                  d.file_writer.closed
                  ++ samples (record { file_name = n; content = played js }) ∷ [])
                named,
        refl,
      )
