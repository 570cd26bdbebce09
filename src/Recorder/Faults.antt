-- ===== src/Recorder/Faults.antt =====
-- FileWriter.cpp: recordings that do not hold what was played.
use amprack_6_pc.Base.{
  ℕ, ◌+◌, ◌≤◌, ◌≡◌, refl, ◌∙◌, ◌==◌, ◌||◌, not, true, false, none, some, List, [], ◌∷◌, ◌++◌, arith,
  length, drop, length-append, length-drop, take_all_length, Bool-cases, inl, inr, ◌>>=◌,
}
use amprack_6_pc.Manager.{AudioBuffer}
use amprack_6_pc.Recorder.{
  Writer, Codecs, wav, mp3, OutputFile, bytes, flush_size, start_recording, open_file, open_as,
  disk_write, write_as, write_wav, stop_recording, close_file, close_as, close_sound, close_plain,
  close_mp3, append_bytes, flush_bytes,
}
use amprack_6_pc.Recorder.Session.{write_blocks}

length-flush_bytes :
    (junk flushed : List ℕ)
    → length junk ≡ flush_size
    → length flushed ≤ flush_size
    → length (flush_bytes junk flushed) ≡ flush_size
unfolding flush_bytes
length-flush_bytes junk flushed j h = omega (
  arith,
  length-append {0} flushed (drop (length flushed) junk),
  length-drop {0} (length flushed) junk,
)

module _ {A : Type 0} {c : Codecs A} where
  -- Stopping an MP3 recording always adds 24576 bytes to the file: those that the encoder had left
  -- and, behind them, uninitialised memory.
  pub stop_mp3-pads :
      (junk : List ℕ) (w : Writer c) (enc : c.Lame) (f : OutputFile ℕ)
      → w.file_type ≡ mp3
      → w.lame ≡ some enc
      → w.output_file ≡ some f
      → w.soundfile ≡ none
      → length junk ≡ flush_size
      → length (c.lame_flush enc) ≤ flush_size
      → (w' : Writer c) × (stop_recording junk w ≡ some w')
        × (w'.closed
            ≡ w.closed
              ++ bytes (record f { content = f.content ++ flush_bytes junk (c.lame_flush enc) })
                ∷ [])
        × (length (f.content ++ flush_bytes junk (c.lame_flush enc))
            ≡ length f.content + flush_size)
  unfolding stop_recording close_file close_as close_mp3 close_sound append_bytes
  stop_mp3-pads junk w enc f t l o s j h =
      let whole =
        take_all_length flush_size (flush_bytes junk (c.lame_flush enc))
          (omega (arith, length-flush_bytes junk (c.lame_flush enc) j h)) in
      (
        record w {
          ready = false;
          output_file = none;
          lame = none;
          closed =
              w.closed
              ++ bytes (record f { content = f.content ++ flush_bytes junk (c.lame_flush enc) })
                ∷ [];
        },
        simp (t, l, o, s, whole),
        refl,
        omega (
          arith,
          length-append {0} f.content (flush_bytes junk (c.lame_flush enc)),
          length-flush_bytes junk (c.lame_flush enc) j h,
        ),
      )

  -- Nothing records that a WAV file is not open.
  unopened-idle :
      (bs : List (AudioBuffer A)) (w : Writer c)
      → w.file_type ≡ wav
      → w.soundfile ≡ none
      → (w' : Writer c) × (write_blocks bs w ≡ some w')
        × (w'.file_type ≡ wav)
        × (w'.soundfile ≡ none)
        × (w'.closed ≡ w.closed)
        × (w'.output_file ≡ w.output_file)
  unfolding write_blocks disk_write write_as write_wav
  unopened-idle [] w t s = (w, refl, t, s, refl, refl)
  unopened-idle (b ∷ bs) w t s = elim (Bool-cases (not w.ready || b.pos == 0)) [
    | inl skip ↦
        let (w₂, e, t₂, s₂, c₂, o₂) = unopened-idle bs w t s in
        (w₂, ground (arith, e), t₂, s₂, c₂, o₂)
    | inr go ↦
        let w₁ : Writer c = record w { disk_writes = w.disk_writes + 1 } in
        let (w₂, e, t₂, s₂, c₂, o₂) = unopened-idle bs w₁ t s in
        (w₂, ground (arith, e), t₂, s₂, c₂, o₂)
  ]

  start-unopened :
      (w : Writer c)
      → w.file_type ≡ wav
      → w.soundfile ≡ none
      → c.sf_open w.filename w.samplerate ≡ false
      → ((start_recording w).file_type ≡ wav)
        × ((start_recording w).soundfile ≡ none)
        × ((start_recording w).closed ≡ w.closed)
        × ((start_recording w).output_file ≡ w.output_file)
  unfolding start_recording open_file open_as
  start-unopened w t s fails = ground arith

  stop-unopened :
      (junk : List ℕ) (w : Writer c)
      → w.file_type ≡ wav
      → w.soundfile ≡ none
      → w.output_file ≡ none
      → stop_recording junk w ≡ some (record w { ready = false })
  unfolding stop_recording close_file close_as close_sound close_plain
  stop-unopened junk w t s o = ground arith

  -- `startRecording` does not look whether the file could be opened: it sets `ready`, every block
  -- is dropped, and no file is closed.
  pub unopened_session :
      (w : Writer c) (bs : List (AudioBuffer A)) (junk : List ℕ)
      → w.file_type ≡ wav
      → w.soundfile ≡ none
      → w.output_file ≡ none
      → c.sf_open w.filename w.samplerate ≡ false
      → ((start_recording w).ready ≡ true)
        × (w' : Writer c) × ((write_blocks bs (start_recording w) >>= stop_recording junk)
            ≡ some w')
        × (w'.closed ≡ w.closed)
  unfolding start_recording
  unopened_session w bs junk t s o fails =
      let (t₀, s₀, c₀, o₀) = start-unopened w t s fails in
      let (w₁, e, t₁, s₁, c₁, o₁) = unopened-idle bs (start_recording w) t₀ s₀ in
      (refl, record w₁ { ready = false }, rw e (stop-unopened junk w₁ t₁ s₁ (o₁ ∙ o₀ ∙ o)), c₁ ∙ c₀)
