-- ===== src/Queue/Runs.antt =====
-- Whole sequences of calls of LockFreeQueue.h.
use native.Mathlib.Nat.{mod-eq_of_lt}
use amprack_6_pc.Base.{ℕ, ◌≡◌, refl, sym, ap, Bool, List, [], ◌∷◌, arith, length}
use amprack_6_pc.Queue.{Shape, Queue, fresh, capacity, push, pop, peek, size}
use amprack_6_pc.Queue.Window.{IsShape, Stores, capacity-lt-index_end, size-eq-length}
use amprack_6_pc.Queue.Refine.{fifo_push, fifo_pop, push_refines, pop_refines, peek_refines}

-- A client's calls.
pub data Call {ℓ} (T : Type ℓ) : Type ℓ where
  pushes : T → Call T
  pops peeks : T → Call T
  sizes : Call T

-- What a call returns: a success flag, what its reference argument holds, or the size.
pub data Reply {ℓ} (T : Type ℓ) : Type ℓ where
  pushed : Bool → Reply T
  got : Bool → T → Reply T
  sized : ℕ → Reply T

module _ {ℓ} (s : Shape) {T : Type ℓ} where
  pub run : Queue T → List (Call T) → List (Reply T)
  run q [] = []
  run q (pushes x ∷ cs) = let (b, q') = push s q x in pushed b ∷ run q' cs
  run q (pops val ∷ cs) = let (b, y, q') = pop s q val in got b y ∷ run q' cs
  run q (peeks val ∷ cs) = let (b, y) = peek s q val in got b y ∷ run q cs
  run q (sizes ∷ cs) = sized (size s q) ∷ run q cs

unfoldable pub fifo_run {ℓ} : {T : Type ℓ} → ℕ → List T → List (Call T) → List (Reply T)
fifo_run cap xs [] = []
fifo_run cap xs (pushes x ∷ cs) = let (b, ys) = fifo_push cap xs x in pushed b ∷ fifo_run cap ys cs
fifo_run cap xs (pops val ∷ cs) = let (b, y, ys) = fifo_pop xs val in got b y ∷ fifo_run cap ys cs
fifo_run cap xs (peeks val ∷ cs) = got (fifo_pop xs val).0 (fifo_pop xs val).1 ∷ fifo_run cap xs cs
fifo_run cap xs (sizes ∷ cs) = sized (length xs) ∷ fifo_run cap xs cs

module _ {ℓ} (s : Shape) (ok : IsShape s) {T : Type ℓ} where
  pub fresh-Stores : (buf : List T) → length buf ≡ capacity s → Stores s (fresh buf) []
  unfolding fresh
  fresh-Stores buf e = record {
    allocated = e;
    read_small = omega (arith, capacity-lt-index_end s ok);
    bounded = omega arith;
    written = sym (mod-eq_of_lt (omega (arith, capacity-lt-index_end s ok)));
    cells = tt;
  }

  -- No sequence of calls tells a queue from the bounded list that it stores.
  pub run_refines :
      (cs : List (Call T)) (q : Queue T) (xs : List T)
      → Stores s q xs
      → run s q cs ≡ fifo_run (capacity s) xs cs
  unfolding run fifo_run
  run_refines [] q xs v = refl
  run_refines (pushes x ∷ cs) q xs v =
      let p = push_refines s ok q xs x v in
      rw p.0 (
        ap (◌∷◌ (pushed (fifo_push (capacity s) xs x).0))
          (run_refines cs (push s q x).1 (fifo_push (capacity s) xs x).1 p.1))
  run_refines (pops val ∷ cs) q xs v =
      let p = pop_refines s ok q xs val v in
      rw (p.0, p.1)
        (ap (◌∷◌ (got (fifo_pop xs val).0 (fifo_pop xs val).1))
          (run_refines cs (pop s q val).2 (fifo_pop xs val).2 p.2))
  run_refines (peeks val ∷ cs) q xs v =
      rw (peek_refines s ok q xs val v)
        (ap (◌∷◌ (got (fifo_pop xs val).0 (fifo_pop xs val).1)) (run_refines cs q xs v))
  run_refines (sizes ∷ cs) q xs v =
      rw (size-eq-length s ok q xs v) (ap (◌∷◌ (sized (length xs))) (run_refines cs q xs v))
