-- ===== src/Recorder/Pipeline.antt =====
-- LockFreeQueue.cpp and FileWriter.cpp together, as engine.cc wires them: the functions that the
-- engine registers are `disk_write` and `check_notify`.
use mathlib.Core.Path.{subst, fun_ext}
use amprack_6_pc.Base.{
  ℕ, zero, suc, ◌≤◌, ◌<◌, ◌≡◌, refl, sym, ap, ◌∙◌, true, Option, none, some, List, [], ◌∷◌, ◌++◌,
  map, length, take, ◌>>=◌,
}
use amprack_6_pc.Manager.{AudioBuffer, Manager, serve}
use amprack_6_pc.Manager.Blocks.{Block, block_of}
use amprack_6_pc.Manager.Delivery.{Holding}
use amprack_6_pc.Manager.Serve.{Registered, deliver, apply_all}
use amprack_6_pc.Manager.Session.{Job, block, AllFit, process_all, session-delivers}
use amprack_6_pc.Recorder.{
  Writer, Codecs, wav, samples, disk_write, start_recording, stop_recording,
}
use amprack_6_pc.Recorder.Session.{joined, write_blocks, wav_session}

module _ {A : Type 0} where
  -- A buffer that shows a block.
  abbrev pub as_buffer : Block A → AudioBuffer A
  as_buffer b = record { overruns = 0; pos = b.count; samples = b.wet; raw = b.dry; size = 0 }

  take-take : (n : ℕ) (xs : List A) → take n (take n xs) ≡ take n xs
  take-take zero xs = refl
  take-take (suc n) [] = refl
  take-take (suc n) (x ∷ xs) = ap (◌∷◌ x) (take-take n xs)

  -- The processed samples of all calls, joined.
  unfoldable pub played : List (Job A) → List A
  played [] = []
  played (j ∷ js) = take j.count j.wet ++ played js

  joined-played : (js : List (Job A)) → joined (map as_buffer (map block js)) ≡ played js
  unfolding joined played
  joined-played [] = refl
  joined-played (j ∷ js) =
      ap (λ l. l ++ joined (map as_buffer (map block js))) (take-take j.count j.wet)
      ∙ ap (◌++◌ (take j.count j.wet)) (joined-played js)

  -- The recorder reads only what a buffer shows.
  disk_write-as_buffer :
      {c : Codecs A} (b : AudioBuffer A) (w : Writer c)
      → disk_write b w ≡ disk_write (as_buffer (block_of b)) w
  unfolding disk_write
  disk_write-as_buffer b w = rw (take-take b.pos b.samples) refl

module _ {A : Type 0} (c : Codecs A) (P : Type 0) where
  -- The file writer, or a fault, beside the rest of the program.
  abbrev pub World : Type 0
  World = Option (Writer c) × P

  -- `disk_write` as a registered function.
  abbrev pub record_buffer : AudioBuffer A → World → World
  record_buffer b e = (e.0 >>= λ w. disk_write b w >>= λ r. some r.1, e.1)

  -- `check_notify` as one: it leaves the file writer alone.
  abbrev pub notify_buffer : (Block A → P → P) → AudioBuffer A → World → World
  notify_buffer notify b e = (e.0, notify (block_of b) e.1)

  abbrev record_block : Block A → World → World
  record_block b e = record_buffer (as_buffer b) e

  abbrev notify_block : (Block A → P → P) → Block A → World → World
  notify_block notify b e = (e.0, notify b e.1)

  write_blocks-cons :
      (b : AudioBuffer A) (bs : List (AudioBuffer A)) (w : Writer c) (o : Option (ℕ × Writer c))
      → disk_write b w ≡ o
      → ((o >>= λ r. some r.1) >>= λ w. write_blocks bs w) ≡ write_blocks (b ∷ bs) w
  unfolding write_blocks
  write_blocks-cons b bs w none e = rw e refl
  write_blocks-cons b bs w (some r) e = rw e refl

  -- Delivered blocks are written one after the other.
  deliver-write_blocks :
      (notify : Block A → P → P) (bs : List (Block A)) (o : Option (Writer c)) (p : P)
      → (deliver (record_block ∷ notify_block notify ∷ []) bs (o, p)).0
        ≡ (o >>= λ w. write_blocks (map as_buffer bs) w)
  unfolding deliver apply_all write_blocks
  deliver-write_blocks notify [] none p = refl
  deliver-write_blocks notify [] (some w) p = refl
  deliver-write_blocks notify (b ∷ bs) none p = deliver-write_blocks notify bs none (notify b p)
  deliver-write_blocks notify (b ∷ bs) (some w) p =
      deliver-write_blocks notify bs (disk_write (as_buffer b) w >>= λ r. some r.1) (notify b p)
      ∙ write_blocks-cons (as_buffer b) (map as_buffer bs) w (disk_write (as_buffer b) w) refl

  -- The two functions that the constructor of the engine registers.
  abbrev pub engine_functions : (Block A → P → P) → List (Option (AudioBuffer A → World → World))
  engine_functions notify = some record_buffer ∷ some (notify_buffer notify) ∷ []

  engine_functions-Registered :
      (notify : Block A → P → P) (rest : List (Option (AudioBuffer A → World → World)))
      → Registered (engine_functions notify ++ rest) 0 (record_block ∷ notify_block notify ∷ [])
  engine_functions-Registered notify rest = (
    (
      record_buffer,
      refl,
      λ b e.
          ap (λ k. (e.0 >>= λ w. k w >>= λ r. some r.1, e.1))
            (fun_ext (λ w. disk_write-as_buffer b w)),
    ),
    ((notify_buffer notify, refl, λ b e. refl), tt),
  )

  -- With the engine's two functions registered and nothing waiting, a WAV recording is started, at
  -- most 128 blocks that fit are processed, the other thread has its turn, and the recording is
  -- stopped: then exactly one more file is closed, and it holds the processed samples of all
  -- blocks, in order, when the library opens the file and writes all frames.
  pub recording_holds-played :
      (js : List (Job A)) (notify : Block A → P → P)
      (rest : List (Option (AudioBuffer A → World → World))) (fuel last : ℕ) (m : Manager A World)
      (w : Writer c) (p : P) (junk : List ℕ)
      → Holding m []
      → AllFit m.buffer_size js
      → length js ≤ 128
      → length js < fuel
      → m.functions_count ≡ 2
      → m.functions ≡ engine_functions notify ++ rest
      → w.file_type ≡ wav
      → w.output_file ≡ none
      → c.format_ok w.samplerate ≡ true
      → c.sf_open w.filename w.samplerate ≡ true
      → ((xs ys : List A) → c.sf_write xs ys ≡ length ys)
      → (m' : Manager A World) × (e : World) × (w' : Writer c) × ((process_all js m >>= λ m₁.
            serve fuel last m₁ (some (start_recording w), p))
          ≡ some (m', e))
        × ((e.0 >>= stop_recording junk) ≡ some w')
        × (w'.closed
            ≡ w.closed ++ samples (record { file_name = w.filename; content = played js }) ∷ [])
  recording_holds-played js notify rest fuel last m w p junk h fit few enough count functions t o ok
        opens full =
      let gs = record_block ∷ notify_block notify ∷ [] in
      let (m', run, _) =
        session-delivers js gs fuel last m (some (start_recording w), p) h fit few enough count
          (subst (λ fs. Registered fs 0 gs) (sym functions)
            (engine_functions-Registered notify rest)) in
      let (w', stops, closes, _) =
        wav_session w (map as_buffer (map block js)) junk t o ok opens full in
      (
        m',
        deliver gs (map block js) (some (start_recording w), p),
        w',
        run,
        ap (λ q. q >>= stop_recording junk)
              (deliver-write_blocks notify (map block js) (some (start_recording w)) p)
            ∙ stops,
        closes
            ∙ ap (λ l. w.closed ++ samples (record { file_name = w.filename; content = l }) ∷ [])
                (joined-played js),
      )
