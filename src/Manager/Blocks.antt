-- ===== src/Manager/Blocks.antt =====
-- A block copied into a spare buffer, and what the queued addresses show of memory.
use amprack_6_pc.Base.{
  ℕ, zero, suc, ◌+◌, ◌%◌, ◌≤◌, ◌<◌, ◌≡◌, refl, ap, ◌∙◌, ◌≢◌, Option, some, List, [], ◌∷◌, ◌++◌, map,
  arith, length, set, take, get_elem?-set_self, get_elem?-set_ne, ◌>>=◌,
}
use amprack_6_pc.Manager.{AudioBuffer, Heap, load, copy_samples, fill}

-- The unprocessed and the processed samples of one block, and their number.
pub record Block (A : Type 0) : Type 0 where
  pub dry : List A
  pub wet : List A
  pub count : ℕ

module _ {A : Type 0} where
  pub copy_samples-total :
      (n : ℕ) (src dst : List A)
      → n ≤ length src
      → n ≤ length dst
      → (out : List A) × (copy_samples n src dst ≡ some out)
        × (take n out ≡ take n src)
        × (length out ≡ length dst)
  unfolding copy_samples
  copy_samples-total zero src dst p q = (dst, refl, refl, refl)
  copy_samples-total (suc n) [] dst p q = absurd (omega arith)
  copy_samples-total (suc n) (x ∷ src) [] p q = absurd (omega arith)
  copy_samples-total (suc n) (x ∷ src) (y ∷ dst) p q =
      let (out, e, same, long) = copy_samples-total n src dst (omega arith) (omega arith) in
      (x ∷ out, rw e refl, ap (◌∷◌ x) same, ap suc long)

  -- What a callback can see of a buffer.
  abbrev pub block_of : AudioBuffer A → Block A
  block_of b = record { dry = take b.pos b.raw; wet = take b.pos b.samples; count = b.pos }

  pub fill-total :
      (b : AudioBuffer A) (raw samples : List A) (n : ℕ)
      → n ≤ length raw
      → n ≤ length samples
      → n ≤ length b.raw
      → n ≤ length b.samples
      → (b' : AudioBuffer A) × (fill b raw samples n ≡ some b')
        × (block_of b' ≡ record { dry = take n raw; wet = take n samples; count = n })
        × (length b'.raw ≡ length b.raw)
        × (length b'.samples ≡ length b.samples)
  unfolding fill
  fill-total b raw samples n p q p' q' =
      let (r, er, sr, lr) = copy_samples-total n raw b.raw p p' in
      let (d, ed, sd, ld) = copy_samples-total n samples b.samples q q' in
      (
        record b { raw = r; samples = d; pos = n },
        rw (er, ed),
        (λ i. record { dry = sr i; wet = sd i; count = n }),
        lr,
        ld,
      )

  -- The block at an address, if the memory there is allocated.
  abbrev pub block_at : Heap A → ℕ → Option (Block A)
  block_at h a = load h a >>= λ b. some (block_of b)

  -- The blocks that the queued addresses lead to, oldest first.
  abbrev pub pending : Heap A → List ℕ → List (Option (Block A))
  pending h addrs = map (block_at h) addrs

-- The addresses of `n` consecutive spare buffers from the `i`-th on, going round.
abbrev pub slots : ℕ → ℕ → ℕ → List ℕ
slots first i zero = []
slots first i (suc n) = (first + i % 128) ∷ slots first (i + 1) n

pub length-slots : (first i n : ℕ) → length (slots first i n) ≡ n
length-slots first i zero = refl
length-slots first i (suc n) = ap suc (length-slots first (i + 1) n)

pub slots-snoc :
    (first i n : ℕ) → slots first i (suc n) ≡ slots first i n ++ (first + (i + n) % 128) ∷ []
slots-snoc first i zero = ap (λ (t : ℕ). (first + t % 128) ∷ []) (omega arith)
slots-snoc first i (suc n) = ap (◌∷◌ (first + i % 128)) (
    slots-snoc first (i + 1) n
    ∙ ap (λ (t : ℕ). slots first (i + 1) n ++ (first + t % 128) ∷ []) (omega arith))

module _ {A : Type 0} where
  -- A buffer ahead of the queued ones can be written without changing what is queued.
  pub pending-set :
      (h : Heap A) (first i n t : ℕ) (o : Option (AudioBuffer A))
      → i + n ≤ t
      → t < i + 128
      → pending (set h (first + t % 128) o) (slots first i n) ≡ pending h (slots first i n)
  pending-set h first i zero t o p q = refl
  pending-set h first i (suc n) t o p q =
      rw (get_elem?-set_ne h (first + t % 128) (first + i % 128) o (omega arith)) (
        ap (◌∷◌ (block_at h (first + i % 128)))
          (pending-set h first (i + 1) n t o (omega arith) (omega arith)))

  -- A pointer that can be read lies in memory.
  pub load-lt : (h : Heap A) (a : ℕ) (b : AudioBuffer A) → load h a ≡ some b → a < length h
  load-lt [] a b e = ground arith
  load-lt (o ∷ h) zero b e = omega arith
  load-lt (o ∷ h) (suc a) b e = omega (arith, load-lt h a b e)

  pub load-set_self :
      (h : Heap A) (a : ℕ) (b : AudioBuffer A) → a < length h → load (set h a (some b)) a ≡ some b
  load-set_self h a b p = rw (get_elem?-set_self h a (some b) p)

  pub load-set_ne :
      (h : Heap A) (a a' : ℕ) (b : AudioBuffer A) → a ≢ a' → load (set h a (some b)) a' ≡ load h a'
  load-set_ne h a a' b p = rw (get_elem?-set_ne h a a' (some b) p)
