-- ===== src/Manager/Overrun.antt =====
-- LockFreeQueue.cpp: `process` when all 128 spare buffers wait in the queue.
use mathlib.Core.Path.{subst, ap₂}
use amprack_6_pc.Base.{
  ℕ, suc, ◌+◌, ◌%◌, ◌≤◌, ◌≡◌, refl, sym, ap, ◌∙◌, some, List, ◌∷◌, map, arith, length, set, take,
  tail, ◌>>=◌,
}
use amprack_6_pc.Queue.Refine.{push-full}
use amprack_6_pc.Manager.{AudioBuffer, Heap, Manager, process, shape}
use amprack_6_pc.Manager.Blocks.{
  Block, block_of, block_at, pending, slots, pending-set, load-lt, load-set_self,
}
use amprack_6_pc.Manager.Delivery.{
  IsRoomy, Inv, Holding, filled, process-fills, counter-lt, shape-IsShape,
}

module _ {A E : Type 0} where
  -- The buffer that is written is the oldest one in the queue.
  overrun-view :
      (m : Manager A E) (first start : ℕ) (b : AudioBuffer A)
      → Inv m first start 128
      → pending (filled m first b).heap (slots first start 128)
        ≡ some (block_of b) ∷ pending m.heap (slots first (start + 1) 127)
  overrun-view m first start b v =
      let addr : ℕ = first + m.buffer_counter in
      let h : Heap A = set m.heap addr (some b) in
      let r : IsRoomy m.buffer_size m.heap addr =
        v.owned m.buffer_counter (counter-lt m first start 128 v) in
      let head : addr ≡ first + start % 128 = omega (arith, v.counter) in
      let later : addr ≡ first + (start + 128) % 128 = omega (arith, v.counter) in
      ap₂ ◌∷◌
        (ap (block_at h) (sym head)
          ∙ ap (λ o. o >>= λ y. some (block_of y))
              (load-set_self m.heap addr b (load-lt m.heap addr r.buffer r.at_address)))
        (subst
          (λ a.
            pending (set m.heap a (some b)) (slots first (start + 1) 127)
            ≡ pending m.heap (slots first (start + 1) 127))
          (sym later)
          (pending-set m.heap first (start + 1) 127 (start + 128) (some b) (omega arith)
            (omega arith)))

  -- A block that comes while 128 blocks wait is not queued, and is written over the oldest one.
  pub process-overruns :
      (m : Manager A E) (oldest : Block A) (rest : List (Block A)) (raw samples : List A) (k : ℕ)
      → length rest ≡ 127
      → k ≤ m.buffer_size
      → k ≤ length raw
      → k ≤ length samples
      → (h : Holding m (oldest ∷ rest))
      → (m' : Manager A E) × (process raw samples k m ≡ some m')
        × (m'.queue ≡ m.queue)
        × (pending m'.heap (slots h.first h.start 128)
            ≡ some (record { dry = take k raw; wet = take k samples; count = k }) ∷ map some rest)
  process-overruns m oldest rest raw samples k long kb kr ks h =
      let v : Inv m h.first h.start 128 = subst (Inv m h.first h.start) (ap suc long) h.inv in
      let (b, e, same, owned) = process-fills m h.first h.start 128 raw samples k v kb kr ks in
      let old : pending m.heap (slots h.first h.start 128) ≡ some oldest ∷ map some rest =
        subst (λ n. pending m.heap (slots h.first h.start (suc n)) ≡ some oldest ∷ map some rest)
          long h.view in
      (
        filled m h.first b,
        e,
        ap (λ r. r.1)
            (push-full shape shape-IsShape m.queue (slots h.first h.start 128)
              (h.first + m.buffer_counter) v.queued refl),
        overrun-view m h.first h.start b v ∙ ap₂ ◌∷◌ (ap some same) (ap tail old),
      )
