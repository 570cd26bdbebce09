-- ===== src/Manager.antt =====
-- LockFreeQueue.cpp: `LockFreeQueueManager`, which copies every processed block into one of 128
-- spare buffers, queues its address, and has a second thread hand each queued buffer to the
-- registered functions. AudioBuffer.h: the buffers.
pub mod Blocks
pub mod Delivery
pub mod Overrun
pub mod Setup
pub mod Serve
pub mod Session
mod Tests
use amprack_6_pc.Base.{
  ℕ, zero, suc, ◌+◌, ◌-◌, ltb, leb, Bool, true, false, not, Option, none, some, List, [], ◌∷◌, ◌++◌,
  get_elem?, set, length, replicate, if◌then◌else◌, ◌>>=◌, ◌>>◌, assert,
}
use amprack_6_pc.Queue.{Shape, Queue, push, pop, fresh}

-- `LockFreeQueue<AudioBuffer *, LOCK_FREE_SIZE>`: 128 entries, uint32_t indices.
abbrev pub shape : Shape
shape = record { capacity_bits = 7; index_bits = 32 }

abbrev pub spare_buffers : ℕ
spare_buffers = 128

abbrev pub max_functions : ℕ
max_functions = 10

-- `audio_buffer`. The code never sets `overruns` and `size`. A sample is a value of type `A`.
pub record AudioBuffer (A : Type 0) : Type 0 where
  pub overruns : ℕ
  pub pos : ℕ
  pub samples : List A
  pub raw : List A
  pub size : ℕ

-- Memory: what `malloc` returned, by address; `none` is an address that was freed.
abbrev pub Heap : Type 0 → Type 0
Heap A = List (Option (AudioBuffer A))

-- A read through a pointer; `none` is a fault.
abbrev pub load : {A : Type 0} → Heap A → ℕ → Option (AudioBuffer A)
load h a = get_elem? h a >>= λ o. o

-- What a registered function does to the rest of the program, `E`.
abbrev pub Callback : Type 0 → Type 0 → Type 0
Callback A E = AudioBuffer A → E → E

-- `pool` is the address of `pAudioBuffer[0]`, the other 127 following it; `none` is the null
-- pointer. `queue` holds addresses, and a null function pointer is `none`.
pub record Manager (A E : Type 0) : Type 0 where
  pub heap : Heap A
  pub queue : Queue ℕ
  pub pool : Option ℕ
  pub buffer_size : ℕ
  pub buffer_counter : ℕ
  pub ready : Bool
  pub functions : List (Option (Callback A E))
  pub functions_count : ℕ
  pub thread_started : Bool

-- A loop `dst[i] = src[i]` over `n` samples; a fault where an array ends before.
pub copy_samples : {A : Type 0} → ℕ → List A → List A → Option (List A)
copy_samples zero src dst = some dst
copy_samples (suc n) (x ∷ src) (y ∷ dst) = do rest ← copy_samples n src dst; some (x ∷ rest)
copy_samples (suc n) _ _ = none

-- `n` buffers freed, from address `a` on.
free_buffers : {A : Type 0} → ℕ → ℕ → Heap A → Heap A
free_buffers zero a h = h
free_buffers (suc n) a h = free_buffers n (a + 1) (set h a none)

-- `malloc` leaves `buffer_size` samples that hold anything, here `junk`.
pub new_buffer : {A : Type 0} → A → ℕ → AudioBuffer A
new_buffer junk n = record {
  overruns = 0;
  pos = 0;
  samples = replicate n junk;
  raw = replicate n junk;
  size = 0;
}

-- The constructor, with what the uninitialised `buffer_size` happens to hold.
pub create : {A E : Type 0} → Heap A → List ℕ → ℕ → Manager A E
unfolding fresh
create h cells garbage = record {
  heap = h;
  queue = fresh cells;
  pool = none;
  buffer_size = garbage;
  buffer_counter = 0;
  ready = false;
  functions = replicate max_functions none;
  functions_count = 0;
  thread_started = false;
}

-- A block copied into a buffer.
pub fill : {A : Type 0} → AudioBuffer A → List A → List A → ℕ → Option (AudioBuffer A)
unfolding copy_samples
fill b raw samples n = do
  r ← copy_samples n raw b.raw
  d ← copy_samples n samples b.samples
  some (record b { raw = r; samples = d; pos = n })

-- `buffer_counter ++`, going round.
abbrev pub advance : ℕ → ℕ
advance c = if leb spare_buffers (c + 1) then 0 else c + 1

module _ {A E : Type 0} where
  -- The first `if` of `init`: too small buffers are freed.
  pub release_small : ℕ → Manager A E → Manager A E
  unfolding free_buffers
  release_small n m =
      if ltb m.buffer_size n
      then elim m.pool [
        | none ↦ m
        | some a ↦ record m { heap = free_buffers spare_buffers a m.heap; pool = none }
      ]
      else m

  -- The second: where there are no buffers, all are allocated.
  pub allocate : A → Manager A E → Manager A E
  unfolding new_buffer
  allocate junk m = elim m.pool [
    | none ↦ record m {
      heap = m.heap ++ replicate spare_buffers (some (new_buffer junk m.buffer_size));
      pool = some (length m.heap);
    }
    | some a ↦ m
  ]

  pub init : A → ℕ → Manager A E → Manager A E
  unfolding release_small allocate
  init junk n m =
      let sized = record (release_small n m) { buffer_size = n } in
      record (allocate junk sized) { buffer_counter = 0; ready = true; thread_started = true }

  -- A write beyond the array is a fault.
  pub write_function : ℕ → Option (Callback A E) → Manager A E → Option (Manager A E)
  write_function i f m = do
    assert (ltb i max_functions)
    some (record m { functions = set m.functions i f })

  pub add_function : Callback A E → Manager A E → Option (Manager A E)
  unfolding write_function
  add_function f m = if ltb max_functions m.functions_count then some m else do
    m' ← write_function m.functions_count (some f) m
    some (record m' { functions_count = m.functions_count + 1 })

  -- `functions_count` would fall below 0; the model stops there with a fault.
  pub pop_function : Manager A E → Option (Manager A E)
  unfolding write_function
  pop_function m = do
    m' ← write_function m.functions_count none m
    assert (ltb 0 m.functions_count)
    some (record m' { functions_count = m.functions_count - 1 })

  pub process : List A → List A → ℕ → Manager A E → Option (Manager A E)
  unfolding fill
  process raw samples n m = if not m.ready then some m else do
    first ← m.pool
    b ← load m.heap (first + m.buffer_counter)
    b' ← fill b raw samples n
    let addr = first + m.buffer_counter
    some (record m {
      heap = set m.heap addr (some b');
      queue = (push shape m.queue addr).1;
      buffer_counter = advance m.buffer_counter;
    })

  -- The `for` over the registered functions, from index `i` on, `n` of them.
  pub call_functions : ℕ → ℕ → AudioBuffer A → Manager A E → E → Option E
  call_functions zero i b m e = some e
  call_functions (suc n) i b m e = do
    slot ← get_elem? m.functions i
    f ← slot
    call_functions n (i + 1) b m (f b e)

  -- The inner `while` of `main`; `fuel` bounds its rounds.
  pub serve : ℕ → ℕ → Manager A E → E → Option (Manager A E × E)
  unfolding call_functions
  serve zero last m e = none
  serve (suc fuel) last m e =
      let (found, addr, q) = pop shape m.queue last in
      elim found [
        | false ↦ some (m, e)
        | true ↦ do
          b ← load m.heap addr
          e' ← call_functions m.functions_count 0 b m e
          serve fuel addr (record m { queue = q }) e'
      ]

  -- `quit` drops what is queued.
  pub quit : ℕ → ℕ → Manager A E → Option (Manager A E)
  quit zero last m = none
  quit (suc fuel) last m =
      let (found, addr, q) = pop shape m.queue last in
      elim found [ false ↦ some m | true ↦ quit fuel addr (record m { queue = q }) ]
