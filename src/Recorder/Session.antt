-- ===== src/Recorder/Session.antt =====
-- FileWriter.cpp: a recording from `startRecording` to `stopRecording`.
use mathlib.Core.Path.{subst}
use amprack_6_pc.Base.{
  ℕ, ◌+◌, ◌≡◌, refl, sym, ap, ◌∙◌, ◌==◌, true, false, Option, none, some, List, [], ◌∷◌, ◌++◌,
  arith, length, take, take_all_length, append-nil, append_assoc, ◌>>=◌, Bool-cases, inl, inr,
  ==→eq,
}
use amprack_6_pc.Manager.{AudioBuffer}
use amprack_6_pc.Recorder.{
  Writer, Codecs, wav, OutputFile, samples, empty_file, start_recording, open_file, open_as,
  disk_write, write_as, write_wav, stop_recording, close_file, close_as, close_sound, close_plain,
}

-- The samples of the blocks, joined.
unfoldable pub joined : {A : Type 0} → List (AudioBuffer A) → List A
joined [] = []
joined (b ∷ bs) = take b.pos b.samples ++ joined bs

module _ {A : Type 0} {c : Codecs A} where
  -- Every block in turn, as the other thread calls `disk_write`.
  unfoldable pub write_blocks : List (AudioBuffer A) → Writer c → Option (Writer c)
  write_blocks [] w = some w
  write_blocks (b ∷ bs) w = do r ← disk_write b w; write_blocks bs r.1

  -- Outside a recording nothing is written and nothing changes.
  pub write_blocks-idle :
      (bs : List (AudioBuffer A)) (w : Writer c) → w.ready ≡ false → write_blocks bs w ≡ some w
  unfolding write_blocks disk_write
  write_blocks-idle [] w idle = refl
  write_blocks-idle (b ∷ bs) w idle = ground (arith, write_blocks-idle bs w idle)

  -- A WAV file that is being written.
  pub record WavOpen (w : Writer c) (f : OutputFile A) : Type 0 where
    pub is_ready : w.ready ≡ true
    pub is_wav : w.file_type ≡ wav
    pub file : w.soundfile ≡ some f

  disk_write-wav :
      (b : AudioBuffer A) (w : Writer c) (f : OutputFile A)
      → ((xs ys : List A) → c.sf_write xs ys ≡ length ys)
      → WavOpen w f
      → (r : ℕ) × (w' : Writer c) × (disk_write b w ≡ some (r, w'))
        × WavOpen w' (record f { content = f.content ++ take b.pos b.samples })
        × (w'.closed ≡ w.closed)
        × (w'.output_file ≡ w.output_file)
  unfolding disk_write write_as write_wav
  disk_write-wav b w f full v = elim (Bool-cases (b.pos == 0)) [
    | inl zero ↦
        let nothing : take b.pos b.samples ≡ [] =
          ap (λ (t : ℕ). take t b.samples) (==→eq b.pos 0 zero) in
        (
          0,
          w,
          ground arith,
          record {
            is_ready = v.is_ready;
            is_wav = v.is_wav;
            file =
                v.file
                ∙ ap some (λ i. record f {
                  content = (sym (ap (◌++◌ f.content) nothing ∙ append-nil f.content)) i;
                });
          },
          refl,
          refl,
        )
    | inr some_frames ↦ (
      1,
      record w {
        disk_writes = w.disk_writes + 1;
        soundfile = some (record f { content = f.content ++ take b.pos b.samples });
      },
      ground (
        arith,
        full f.content (take b.pos b.samples),
        take_all_length (length (take b.pos b.samples)) (take b.pos b.samples),
      ),
      record { is_ready = v.is_ready; is_wav = v.is_wav; file = refl },
      refl,
      refl,
    )
  ]

  write_blocks-wav :
      (bs : List (AudioBuffer A)) (w : Writer c) (f : OutputFile A)
      → ((xs ys : List A) → c.sf_write xs ys ≡ length ys)
      → WavOpen w f
      → (w' : Writer c) × (write_blocks bs w ≡ some w')
        × WavOpen w' (record f { content = f.content ++ joined bs })
        × (w'.closed ≡ w.closed)
        × (w'.output_file ≡ w.output_file)
  unfolding write_blocks joined
  write_blocks-wav [] w f full v = (
    w,
    refl,
    subst (WavOpen w) (λ i. record f { content = sym (append-nil f.content) i }) v,
    refl,
    refl,
  )
  write_blocks-wav (b ∷ bs) w f full v =
      let g : OutputFile A = record f { content = f.content ++ take b.pos b.samples } in
      let (r, w₁, e₁, v₁, c₁, o₁) = disk_write-wav b w f full v in
      let (w₂, e₂, v₂, c₂, o₂) = write_blocks-wav bs w₁ g full v₁ in
      (
        w₂,
        rw e₁ e₂,
        subst (WavOpen w₂)
            (λ i. record f {
              content = append_assoc f.content (take b.pos b.samples) (joined bs) i;
            })
            v₂,
        c₂ ∙ c₁,
        o₂ ∙ o₁,
      )

  start-wav :
      (w : Writer c)
      → w.file_type ≡ wav
      → c.format_ok w.samplerate ≡ true
      → c.sf_open w.filename w.samplerate ≡ true
      → WavOpen (start_recording w) (empty_file w.filename)
        × ((start_recording w).closed ≡ w.closed)
        × ((start_recording w).output_file ≡ w.output_file)
  unfolding start_recording open_file open_as
  start-wav w t ok opens = ground arith

  stop-wav :
      (junk : List ℕ) (w : Writer c) (f : OutputFile A)
      → WavOpen w f
      → w.output_file ≡ none
      → (w' : Writer c) × (stop_recording junk w ≡ some w')
        × (w'.closed ≡ w.closed ++ samples f ∷ [])
        × (w'.ready ≡ false)
        × (w'.soundfile ≡ none)
  unfolding stop_recording close_file close_as close_sound close_plain
  stop-wav junk w f v o = (
    record w { ready = false; soundfile = none; closed = w.closed ++ samples f ∷ [] },
    ground arith,
    refl,
    refl,
    refl,
  )

  -- A WAV recording, with a library that opens the file and writes all frames: after it is stopped
  -- exactly one more file is closed, under the name that was set, and it holds the samples of every
  -- block that came in between, in order.
  pub wav_session :
      (w : Writer c) (bs : List (AudioBuffer A)) (junk : List ℕ)
      → w.file_type ≡ wav
      → w.output_file ≡ none
      → c.format_ok w.samplerate ≡ true
      → c.sf_open w.filename w.samplerate ≡ true
      → ((xs ys : List A) → c.sf_write xs ys ≡ length ys)
      → (w' : Writer c) × ((write_blocks bs (start_recording w) >>= stop_recording junk) ≡ some w')
        × (w'.closed
            ≡ w.closed ++ samples (record { file_name = w.filename; content = joined bs }) ∷ [])
        × (w'.ready ≡ false)
  unfolding empty_file
  wav_session w bs junk t o ok opens full =
      let (v, c₀, o₀) = start-wav w t ok opens in
      let (w₁, e₁, v₁, c₁, o₁) =
        write_blocks-wav bs (start_recording w) (empty_file w.filename) full v in
      let (w₂, e₂, c₂, r₂, _) =
        stop-wav junk w₁ (record { file_name = w.filename; content = joined bs }) v₁
          (o₁ ∙ o₀ ∙ o) in
      (
        w₂,
        rw e₁ e₂,
        c₂
            ∙ ap (λ l. l ++ samples (record { file_name = w.filename; content = joined bs }) ∷ [])
                (c₁ ∙ c₀),
        r₂,
      )
