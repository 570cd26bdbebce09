-- ===== src/Queue/Window.antt =====
-- What a run of buffer cells holds, and how the wrapping counters of LockFreeQueue.h address it.
use amprack_6_pc.Base.Bits.{bit_and_mask, mod-ne, pow-mod-pow}
use amprack_6_pc.Base.{
  ℕ, suc, ◌+◌, ◌-◌, ◌%◌, ◌≤◌, ◌<◌, ◌≡◌, sym, ap, ◌∙◌, ◌≢◌, List, [], ◌∷◌, ◌++◌, some, arith, true,
  false, ◌==◌, eq→==, ne→==, length, get_elem?, set, get_elem?-set_ne,
}
use native.Mathlib.Nat.{mod-add-mod, mod-eq_of_lt, mod-eq-sub-mod, pow-le-pow_right, one-le-pow}
use native.Mathlib.Nat.{mod-lt, pow-suc}
use native.Mathlib.Decide.{dec_lt}
use amprack_6_pc.Queue.{Shape, Queue, capacity, index_end, mask, next, size, is_empty, is_full}

module _ {ℓ} {T : Type ℓ} (c : ℕ) where
  -- The cells from index `r` on, going round at `c`, hold `xs`.
  abbrev pub Holds : List T → ℕ → List T → Type ℓ
  Holds buf r [] = Unit
  Holds buf r (x ∷ xs) = (get_elem? buf (r % c) ≡ some x) × Holds buf (r + 1) xs

  -- Only the remainder of the index counts.
  pub Holds-mod :
      (buf : List T) (r r' : ℕ) (xs : List T) → r % c ≡ r' % c → Holds buf r xs → Holds buf r' xs
  Holds-mod buf r r' [] e h = tt
  Holds-mod buf r r' (x ∷ xs) e h =
      (ap (get_elem? buf) (sym e) ∙ h.0, Holds-mod buf (r + 1) (r' + 1) xs shift h.1)
    where
      shift : (r + 1) % c ≡ (r' + 1) % c
      shift = sym (mod-add-mod r c 1) ∙ ap (λ (t : ℕ). (t + 1) % c) e ∙ mod-add-mod r' c 1

  -- A write beyond the run leaves it alone.
  pub Holds-set :
      (buf : List T) (r t : ℕ) (v : T) (xs : List T)
      → r + length xs ≤ t
      → t < r + c
      → Holds buf r xs
      → Holds (set buf (t % c) v) r xs
  Holds-set buf r t v [] p q h = tt
  Holds-set buf r t v (x ∷ xs) p q h = (
    get_elem?-set_ne buf (t % c) (r % c) v (λ e. mod-ne c r t (omega arith) q (sym e)) ∙ h.0,
    Holds-set buf (r + 1) t v xs (omega arith) (omega arith) h.1,
  )

  pub Holds-snoc :
      (buf : List T) (r : ℕ) (v : T) (xs : List T)
      → Holds buf r xs
      → get_elem? buf ((r + length xs) % c) ≡ some v
      → Holds buf r (xs ++ v ∷ [])
  Holds-snoc buf r v [] h e = (ap (λ (t : ℕ). get_elem? buf (t % c)) (omega arith) ∙ e, tt)
  Holds-snoc buf r v (x ∷ xs) h e = (
    h.0,
    Holds-snoc buf (r + 1) v xs h.1 (ap (λ (t : ℕ). get_elem? buf (t % c)) (omega arith) ∙ e),
  )

-- What the template's documentation asks: the capacity lies below the largest index.
pub record IsShape (s : Shape) : Type 0 where
  pub fits : s.capacity_bits < s.index_bits

module _ (s : Shape) (ok : IsShape s) where
  pub capacity_pos : 0 < capacity s
  capacity_pos = omega (arith, one-le-pow s.capacity_bits 2)

  pub capacity-lt-index_end : capacity s < index_end s
  capacity-lt-index_end = omega (
    arith,
    capacity_pos,
    pow-suc 2 s.capacity_bits,
    pow-le-pow_right {n = 2} (omega arith) {i = suc s.capacity_bits} {j = s.index_bits} ok.fits,
  )

  -- `mask` is the remainder by the capacity.
  pub mask-eq-mod : (n : ℕ) → mask s n ≡ n % capacity s
  unfolding mask
  mask-eq-mod n =
      rw (bit_and_mask s.capacity_bits n)
        (mod-eq_of_lt (omega (arith, capacity_pos, capacity-lt-index_end, mod-lt n capacity_pos)))

  pub next-mod : (n : ℕ) → next s n % capacity s ≡ (n + 1) % capacity s
  unfolding next
  next-mod n = pow-mod-pow s.capacity_bits s.index_bits (n + 1) (omega (arith, ok.fits))

-- The counters and the buffer of `q` store `xs`, oldest first.
pub record Stores {ℓ} (s : Shape) {T : Type ℓ} (q : Queue T) (xs : List T) : Type ℓ where
  pub allocated : length q.buffer ≡ capacity s
  pub read_small : q.read_counter < index_end s
  pub bounded : length xs ≤ capacity s
  pub written : q.write_counter ≡ (q.read_counter + length xs) % index_end s
  pub cells : Holds (capacity s) q.buffer q.read_counter xs

-- The remainder of a number below twice the divisor.
mod_below : (m n : ℕ) → n < m → n % m ≡ n
mod_below m n h = mod-eq_of_lt h

mod_over : (m n : ℕ) → m ≤ n → n < m + m → n % m ≡ n - m
mod_over m n h k = mod-eq-sub-mod h ∙ mod-eq_of_lt (omega arith)

-- The wrapped difference of the counters is the number of stored items.
counter_difference : (m r n : ℕ) → r < m → n < m → ((r + n) % m + m - r) % m ≡ n
counter_difference m r n p q = elim (dec_lt (r + n) m) [
  | yes h ↦
      rw (mod_below m (r + n) h)
        (mod_over m (r + n + m - r) (omega arith) (omega arith) ∙ omega arith)
  | no h ↦
      rw (mod_over m (r + n) (omega arith) (omega arith))
        (ap (λ (t : ℕ). t % m) {x = r + n - m + m - r} {y = n} (omega arith) ∙ mod_below m n q)
]

-- The counters differ unless nothing is stored.
counter_ne : (m r n : ℕ) → r < m → 0 < n → n < m → r ≢ (r + n) % m
counter_ne m r n p q h e = elim (dec_lt (r + n) m) [
  | yes k ↦ omega (arith, mod_below m (r + n) k)
  | no k ↦ omega (arith, mod_over m (r + n) (omega arith) (omega arith))
]

module _ {ℓ} (s : Shape) (ok : IsShape s) {T : Type ℓ} (q : Queue T) where
  pub size-eq-length : (xs : List T) → Stores s q xs → size s q ≡ length xs
  unfolding size
  size-eq-length xs v = rw v.written (
      counter_difference (index_end s) q.read_counter (length xs) v.read_small
        (omega (arith, capacity-lt-index_end s ok, v.bounded)))

  pub is_empty-nil : Stores s q [] → is_empty s q ≡ true
  unfolding is_empty
  is_empty-nil v = eq→== q.read_counter q.write_counter (sym (v.written ∙ same))
    where
      same : (q.read_counter + 0) % index_end s ≡ q.read_counter
      same =
          ap (λ (t : ℕ). t % index_end s) (omega arith)
          ∙ mod_below (index_end s) q.read_counter v.read_small

  pub is_empty-cons : (x : T) (xs : List T) → Stores s q (x ∷ xs) → is_empty s q ≡ false
  unfolding is_empty
  is_empty-cons x xs v = ne→== q.read_counter q.write_counter (
      rw v.written (
        counter_ne (index_end s) q.read_counter (suc (length xs)) v.read_small (omega arith)
          (omega (arith, capacity-lt-index_end s ok, v.bounded))))

  pub is_full-eq : (xs : List T) → Stores s q xs → is_full s q ≡ (length xs == capacity s)
  unfolding is_full
  is_full-eq xs v = rw (size-eq-length xs v)
