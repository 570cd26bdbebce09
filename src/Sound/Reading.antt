-- ===== src/Sound/Reading.antt =====
-- snd.cc: the samples of a file and the size of their block.
use native.Mathlib.Decide.{dec_lt}
use amprack_6_pc.Base.{
  ℕ, zero, suc, ◌+◌, ◌*◌, ◌<◌, ◌≤◌, ◌≡◌, refl, ap, ◌∙◌, arith, leb, ltb, lt→ltb, le→ltb, le→leb,
  lt→leb, true, false, Bool-cases, inl, inr, none, some, List, [], ◌∷◌, ◌++◌, length, take,
}
use amprack_6_pc.Sound.Memory.{live}
use amprack_6_pc.Sound.{Block, int, floats, SoundInfo, narrow, snd_read, float_size}

times_one : (n c : ℕ) → 1 ≤ c → n ≤ n * c
times_one n zero h = absurd (omega arith)
times_one n (suc c) h = omega arith

times_two : (n c : ℕ) → 2 ≤ c → n + n ≤ n * c
times_two n zero h = absurd (omega arith)
times_two n (suc zero) h = absurd (omega arith)
times_two n (suc (suc c)) h = omega arith

times_mono : (n c : ℕ) → c ≤ 1 → n * c ≤ n
times_mono n zero h = omega arith
times_mono n (suc zero) h = omega arith
times_mono n (suc (suc c)) h = absurd (omega arith)

pub narrow-small : (n : ℕ) → n < 2147483648 → narrow n ≡ n
narrow-small n h = omega arith

-- A file whose number of frames is an `int` that is not negative, and whose samples fit.
pub snd_read-fits :
    {A : Type 0} (f : SoundInfo A) (m : List (Block A))
    → ltb (narrow f.frames) 2147483648 ≡ true
    → leb (float_size * (f.readable * f.channels)) (float_size * narrow f.frames + 1) ≡ true
    → snd_read (some f) m
      ≡ some (
        some (record { data_at = length (m ++ live (int (narrow f.frames)) ∷ []); len = length m }),
        (m ++ live (int (narrow f.frames)) ∷ [])
            ++ live (floats (take (f.readable * f.channels) f.samples)) ∷ [],
      )
unfolding snd_read
snd_read-fits f m short fits = rw (snd_read, short, fits) refl

pub snd_read-negative :
    {A : Type 0} (f : SoundInfo A) (m : List (Block A))
    → ltb (narrow f.frames) 2147483648 ≡ false
    → snd_read (some f) m ≡ none
unfolding snd_read
snd_read-negative f m negative = rw (snd_read, negative) refl

pub snd_read-overflows :
    {A : Type 0} (f : SoundInfo A) (m : List (Block A))
    → leb (float_size * (f.readable * f.channels)) (float_size * narrow f.frames + 1) ≡ false
    → snd_read (some f) m ≡ none
unfolding snd_read
snd_read-overflows f m over = elim (Bool-cases (ltb (narrow f.frames) 2147483648)) [
  | inl short ↦ rw (snd_read, short, over) refl
  | inr negative ↦ snd_read-negative f m negative
]

-- Where all frames of a file can be read, and it has some: with fewer than 2 ^ 31 frames and at most one
-- channel snd_read gives the frames and their number; with a second channel, or with 2 ^ 31 frames or
-- more and a channel, the block is too small for them, or cannot be had.
pub snd_read_lem :
    {A : Type 0} (f : SoundInfo A) (m : List (Block A))
    → f.readable ≡ f.frames
    → 0 < f.frames
    → (f.channels ≤ 1
        → f.frames < 2147483648
        → snd_read (some f) m
          ≡ some (
            some (record { data_at = length (m ++ live (int f.frames) ∷ []); len = length m }),
            (m ++ live (int f.frames) ∷ [])
                ++ live (floats (take (f.readable * f.channels) f.samples)) ∷ [],
          ))
      × (2 ≤ f.channels → snd_read (some f) m ≡ none)
      × (1 ≤ f.channels → 2147483648 ≤ f.frames → snd_read (some f) m ≡ none)
snd_read_lem f m all some_frames =
    let size = ap (λ r. r * f.channels) all in
    (
      λ mono small.
          let same = narrow-small f.frames small in
          snd_read-fits f m (lt→ltb (narrow f.frames) 2147483648 (omega (arith, same))) (
            le→leb (float_size * (f.readable * f.channels)) (float_size * narrow f.frames + 1)
              (omega (arith, size, same, times_mono f.frames f.channels mono)))
          ∙ ap
              (λ n. some (
                some (record { data_at = length (m ++ live (int n) ∷ []); len = length m }),
                (m ++ live (int n) ∷ [])
                    ++ live (floats (take (f.readable * f.channels) f.samples)) ∷ [],
              ))
              same,
      λ two. snd_read-overflows f m (
          lt→leb (float_size * (f.readable * f.channels)) (float_size * narrow f.frames + 1)
            (omega (arith, size, some_frames, times_two f.frames f.channels two))),
      λ one long. elim (dec_lt (narrow f.frames) 2147483648) [
        | yes short ↦ snd_read-overflows f m (
            lt→leb (float_size * (f.readable * f.channels)) (float_size * narrow f.frames + 1)
              (omega (arith, size, long, short, times_one f.frames f.channels one)))
        | no negative ↦
            snd_read-negative f m (le→ltb (narrow f.frames) 2147483648 (omega (arith, negative)))
      ],
    )
