-- ===== src/Manager/Delivery.antt =====
-- From `process` on the audio thread to the registered functions on the other one.
use mathlib.Core.Path.{subst, ap₂}
use mathlib.Core.List.{map-append}
use amprack_6_pc.Base.{
  ℕ, suc, ◌+◌, ◌%◌, ◌≤◌, ◌<◌, ◌≡◌, refl, sym, ap, ◌∙◌, ◌≢◌, inl, inr, true, some, List, [], ◌∷◌,
  ◌++◌, map, arith, length, set, take, length-append, ◌>>=◌, ◌==◌, ==→eq, ==→ne, ne→==, Bool-cases,
}
use amprack_6_pc.Queue.{push}
use amprack_6_pc.Queue.Window.{IsShape, Stores}
use amprack_6_pc.Queue.Refine.{push_refines, fifo_push}
use amprack_6_pc.Manager.{AudioBuffer, Heap, Manager, load, process, shape, advance}
use amprack_6_pc.Manager.Blocks.{
  Block, block_of, block_at, pending, slots, length-slots, slots-snoc, pending-set, fill-total,
  load-lt, load-set_self, load-set_ne,
}

pub shape-IsShape : IsShape shape
shape-IsShape = omega arith

-- A buffer that can take `n` samples.
pub record IsRoomy {A : Type 0} (n : ℕ) (h : Heap A) (a : ℕ) : Type 0 where
  pub buffer : AudioBuffer A
  pub at_address : load h a ≡ some buffer
  pub raw_room : n ≤ length buffer.raw
  pub samples_room : n ≤ length buffer.samples

-- The buffers stay as roomy when one of them is filled.
owned-set :
    {A : Type 0} (h : Heap A) (size a : ℕ) (b b' : AudioBuffer A)
    → load h a ≡ some b
    → size ≤ length b'.raw
    → size ≤ length b'.samples
    → (x : ℕ) → IsRoomy size h x
    → IsRoomy size (set h a (some b')) x
owned-set h size a b b' e lr ls x v = elim (Bool-cases (a == x)) [
  | inl same ↦
      let hit : a ≡ x = ==→eq a x same in
      record {
        buffer = b';
        at_address =
            subst (λ y. load (set h a (some b')) y ≡ some b') hit
              (load-set_self h a b' (load-lt h a b e));
        raw_room = lr;
        samples_room = ls;
      }
  | inr other ↦ record {
    buffer = v.buffer;
    at_address = load-set_ne h a x b' (==→ne a x other) ∙ v.at_address;
    raw_room = v.raw_room;
    samples_room = v.samples_room;
  }
]

advance-mod : (t : ℕ) → advance (t % 128) ≡ (t + 1) % 128
advance-mod t = ground arith

module _ {A E : Type 0} where
  -- The queue holds the addresses of `n` buffers, the last one just before `buffer_counter`.
  pub record Inv (m : Manager A E) (first start n : ℕ) : Type 0 where
    pub is_ready : m.ready ≡ true
    pub allocated : m.pool ≡ some first
    pub counter : m.buffer_counter ≡ (start + n) % 128
    pub queued : Stores shape m.queue (slots first start n)
    pub owned : (i : ℕ) → i < 128 → IsRoomy m.buffer_size m.heap (first + i)

  -- The manager after a block went into the buffer at `buffer_counter`.
  abbrev pub filled : Manager A E → ℕ → AudioBuffer A → Manager A E
  filled m first b = record m {
    heap = set m.heap (first + m.buffer_counter) (some b);
    queue = (push shape m.queue (first + m.buffer_counter)).1;
    buffer_counter = advance m.buffer_counter;
  }

  pub counter-lt :
      (m : Manager A E) (first start n : ℕ) → Inv m first start n → m.buffer_counter < 128
  counter-lt m first start n v = omega (arith, v.counter)

  -- Whatever is queued, `process` copies the block and goes on to the next buffer.
  pub process-fills :
      (m : Manager A E) (first start n : ℕ) (raw samples : List A) (k : ℕ)
      → Inv m first start n
      → k ≤ m.buffer_size
      → k ≤ length raw
      → k ≤ length samples
      → (b : AudioBuffer A) × (process raw samples k m ≡ some (filled m first b))
        × (block_of b ≡ record { dry = take k raw; wet = take k samples; count = k })
        × ((i : ℕ) → i < 128 → IsRoomy m.buffer_size (filled m first b).heap (first + i))
  unfolding process
  process-fills m first start n raw samples k v kb kr ks =
      let r : IsRoomy m.buffer_size m.heap (first + m.buffer_counter) =
        v.owned m.buffer_counter (counter-lt m first start n v) in
      let (b, e, same, lr, ls) =
        fill-total r.buffer raw samples k kr ks (omega (arith, r.raw_room))
          (omega (arith, r.samples_room)) in
      (
        b,
        rw (v.is_ready, v.allocated, r.at_address, e) refl,
        same,
        λ i p.
            owned-set m.heap m.buffer_size (first + m.buffer_counter) r.buffer b r.at_address
              (omega (arith, r.raw_room)) (omega (arith, r.samples_room)) (first + i) (v.owned i p),
      )

  -- The blocks that wait in the queue of a manager, oldest first.
  pub record Holding (m : Manager A E) (bs : List (Block A)) : Type 0 where
    pub first : ℕ
    pub start : ℕ
    pub inv : Inv m first start (length bs)
    pub view : pending m.heap (slots first start (length bs)) ≡ map some bs

  Holding-of :
      (m : Manager A E) (bs : List (Block A)) (n first start : ℕ)
      → n ≡ length bs
      → Inv m first start n
      → pending m.heap (slots first start n) ≡ map some bs
      → Holding m bs
  Holding-of m bs n first start e v w = record {
    first = first;
    start = start;
    inv = subst (Inv m first start) e v;
    view = subst (λ l. pending m.heap (slots first start l) ≡ map some bs) e w;
  }

  -- With room in the queue, the address of the filled buffer joins it.
  filled-Inv :
      (m : Manager A E) (first start n : ℕ) (b : AudioBuffer A)
      → Inv m first start n
      → n ≢ 128
      → ((i : ℕ) → i < 128 → IsRoomy m.buffer_size (filled m first b).heap (first + i))
      → Inv (filled m first b) first start (suc n)
  filled-Inv m first start n b v room owned = record {
    is_ready = v.is_ready;
    allocated = v.allocated;
    counter =
        ap advance v.counter ∙ advance-mod (start + n) ∙ ap (λ (t : ℕ). t % 128) (omega arith);
    queued =
        subst (Stores shape (filled m first b).queue) joined
          (push_refines shape shape-IsShape m.queue (slots first start n) (first + m.buffer_counter)
            v.queued).1;
    owned = owned;
  }
    where
      joined :
          (fifo_push 128 (slots first start n) (first + m.buffer_counter)).1
          ≡ slots first start (suc n)
      joined =
          rw
            (
              ne→== (length (slots first start n)) 128 (omega (arith, length-slots first start n)),
              v.counter,
            )
            (sym (slots-snoc first start n))

  -- The new block shows at the end; the buffers that were queued are not the one written.
  filled-view :
      (m : Manager A E) (first start n : ℕ) (b : AudioBuffer A)
      → Inv m first start n
      → n < 128
      → pending (filled m first b).heap (slots first start (suc n))
        ≡ pending m.heap (slots first start n) ++ some (block_of b) ∷ []
  filled-view m first start n b v room =
      let addr : ℕ = first + m.buffer_counter in
      let h : Heap A = set m.heap addr (some b) in
      let last : addr ≡ first + (start + n) % 128 = ap (λ (t : ℕ). first + t) v.counter in
      let r : IsRoomy m.buffer_size m.heap addr =
        v.owned m.buffer_counter (counter-lt m first start n v) in
      ap (pending h) (slots-snoc first start n)
      ∙ map-append (block_at h) (slots first start n) ((first + (start + n) % 128) ∷ [])
      ∙ ap₂ ◌++◌
          (subst
            (λ a.
              pending (set m.heap a (some b)) (slots first start n)
              ≡ pending m.heap (slots first start n))
            (sym last)
            (pending-set m.heap first start n (start + n) (some b) (omega arith) (omega arith)))
          (ap (λ o. o ∷ [])
            (ap (block_at h) (sym last)
              ∙ ap (λ o. o >>= λ y. some (block_of y))
                  (load-set_self m.heap addr b (load-lt m.heap addr r.buffer r.at_address))))

  -- With room in the queue, `process` adds its block behind those that wait, and touches nothing
  -- else that a callback can see.
  pub process-enqueues :
      (m : Manager A E) (bs : List (Block A)) (raw samples : List A) (k : ℕ)
      → Holding m bs
      → length bs < 128
      → k ≤ m.buffer_size
      → k ≤ length raw
      → k ≤ length samples
      → (m' : Manager A E) × (process raw samples k m ≡ some m')
        × Holding m' (bs ++ record { dry = take k raw; wet = take k samples; count = k } ∷ [])
        × (m'.functions ≡ m.functions)
        × (m'.functions_count ≡ m.functions_count)
        × (m'.buffer_size ≡ m.buffer_size)
  process-enqueues m bs raw samples k h room kb kr ks =
      let (b, e, same, owned) =
        process-fills m h.first h.start (length bs) raw samples k h.inv kb kr ks in
      (
        filled m h.first b,
        e,
        Holding-of (filled m h.first b) _ (suc (length bs)) h.first h.start
            (omega (
              arith,
              length-append {0} bs
                  (record { dry = take k raw; wet = take k samples; count = k } ∷ []),
            ))
            (filled-Inv m h.first h.start (length bs) b h.inv (omega arith) owned)
            (filled-view m h.first h.start (length bs) b h.inv room
              ∙ ap₂ ◌++◌ h.view (ap (λ c. some c ∷ []) same)
              ∙ sym (map-append some bs _)),
        refl,
        refl,
        refl,
      )
