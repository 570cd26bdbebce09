-- ===== src/Queue.antt =====
-- LockFreeQueue.h: the template `LockFreeQueue<T, CAPACITY, INDEX_TYPE>`, one function for each
-- member. A member that changes the queue returns the new queue beside its result.
pub mod Window
pub mod Refine
pub mod Runs
pub mod Interleave
mod Tests
use amprack_6_pc.Base.{
  ℕ, ◌+◌, ◌-◌, ◌%◌, ◌^◌, ◌==◌, bit_and, Bool, true, false, List, get_or, set, if◌then◌else◌,
}

-- The template's number parameters: CAPACITY is `2 ^ capacity_bits`, as the first `static_assert`
-- wants, and an INDEX_TYPE of `index_bits` bits wraps at `2 ^ index_bits`.
pub record Shape : Type 0 where
  pub capacity_bits : ℕ
  pub index_bits : ℕ

abbrev pub capacity : Shape → ℕ
capacity s = 2 ^ s.capacity_bits

abbrev pub index_end : Shape → ℕ
index_end s = 2 ^ s.index_bits

-- `(n & (n - 1)) == 0` on uint32_t.
unfoldable pub is_power_of_two : ℕ → Bool
is_power_of_two n = bit_and n ((n + 2 ^ 32 - 1) % 2 ^ 32) == 0

-- The data members.
pub record Queue {ℓ} (T : Type ℓ) : Type ℓ where
  pub buffer : List T
  pub write_counter : ℕ
  pub read_counter : ℕ

module _ {ℓ} (s : Shape) {T : Type ℓ} where
  -- Unsigned subtraction wraps.
  unfoldable pub size : Queue T → ℕ
  size q = (q.write_counter + index_end s - q.read_counter) % index_end s

  unfoldable pub is_empty : Queue T → Bool
  is_empty q = q.read_counter == q.write_counter

  unfoldable pub is_full : Queue T → Bool
  unfolding size
  is_full q = size q == capacity s

-- A queue as it is declared: both counters are 0, and the buffer holds anything.
unfoldable pub fresh {ℓ} : {T : Type ℓ} → List T → Queue T
fresh buf = record { buffer = buf; write_counter = 0; read_counter = 0 }

module _ (s : Shape) where
  unfoldable pub mask : ℕ → ℕ
  mask n = bit_and n (capacity s - 1) % index_end s

  -- `++counter` on INDEX_TYPE.
  unfoldable pub next : ℕ → ℕ
  next n = (n + 1) % index_end s

module _ {ℓ} (s : Shape) {T : Type ℓ} where
  -- The result, what `val` holds afterwards, and the queue.
  unfoldable pub pop : Queue T → T → Bool × T × Queue T
  unfolding is_empty next
  pop q val = if is_empty s q then (false, val, q) else (
    true,
    get_or q.buffer (mask s q.read_counter) val,
    record q { read_counter = next s q.read_counter },
  )

  unfoldable pub push : Queue T → T → Bool × Queue T
  unfolding is_full next
  push q item = if is_full s q then (false, q) else (
    true,
    record q {
      buffer = set q.buffer (mask s q.write_counter) item;
      write_counter = next s q.write_counter;
    },
  )

  unfoldable pub peek : Queue T → T → Bool × T
  unfolding is_empty
  peek q item =
      if is_empty s q then (false, item) else (true, get_or q.buffer (mask s q.read_counter) item)
