-- ===== src/Queue/Refine.antt =====
-- LockFreeQueue.h against a bounded first-in first-out list.
use native.Mathlib.Nat.{mod-lt, mod-add-mod}
use amprack_6_pc.Base.{
  ℕ, suc, ◌+◌, ◌%◌, ◌<◌, ◌≡◌, refl, sym, ap, ◌∙◌, Bool, true, false, List, [], ◌∷◌, ◌++◌, some,
  arith, ◌==◌, eq→==, if◌then◌else◌, Bool-cases, inl, inr, ==→ne, length, length-append, length-set,
  get_elem?, set, get_elem?-set_self, get_or-get_elem?,
}
use amprack_6_pc.Base.Bits.{pow-mod-pow}
use amprack_6_pc.Queue.{Shape, Queue, capacity, index_end, mask, next, push, pop, peek}
use amprack_6_pc.Queue.Window.{
  Holds-mod, Holds-set, Holds-snoc, IsShape, Stores, capacity_pos, capacity-lt-index_end,
  mask-eq-mod, next-mod, is_empty-nil, is_empty-cons, is_full-eq,
}

-- A FIFO of at most `cap` items, oldest first.
abbrev pub fifo_push {ℓ} : {T : Type ℓ} → ℕ → List T → T → Bool × List T
fifo_push cap xs x = if length xs == cap then (false, xs) else (true, xs ++ x ∷ [])

abbrev pub fifo_pop {ℓ} : {T : Type ℓ} → List T → T → Bool × T × List T
fifo_pop [] val = (false, val, [])
fifo_pop (x ∷ xs) val = (true, x, xs)

next_write : (s : Shape) (r n : ℕ) → next s ((r + n) % index_end s) ≡ (r + suc n) % index_end s
unfolding next
next_write s r n =
    mod-add-mod (r + n) (index_end s) 1 ∙ ap (λ (t : ℕ). t % index_end s) (omega arith)

next_read : (s : Shape) (r n : ℕ) → (next s r + n) % index_end s ≡ (r + suc n) % index_end s
unfolding next
next_read s r n =
    mod-add-mod (r + 1) (index_end s) n ∙ ap (λ (t : ℕ). t % index_end s) (omega arith)

module _ {ℓ} (s : Shape) (ok : IsShape s) {T : Type ℓ} (q : Queue T) where
  next-lt : (n : ℕ) → next s n < index_end s
  unfolding next
  next-lt n = mod-lt (n + 1) (omega (arith, capacity-lt-index_end s ok))

  -- Where the next item goes.
  write_cell :
      (xs : List T)
      → Stores s q xs
      → mask s q.write_counter ≡ (q.read_counter + length xs) % capacity s
  write_cell xs v =
      mask-eq-mod s ok q.write_counter
      ∙ ap (λ (t : ℕ). t % capacity s) v.written
      ∙ pow-mod-pow s.capacity_bits s.index_bits (q.read_counter + length xs)
          (omega (arith, ok.fits))

  pub write_cell-lt : mask s q.write_counter < capacity s
  write_cell-lt = rw (mask-eq-mod s ok q.write_counter) (mod-lt q.write_counter (capacity_pos s ok))

  -- The first half of `push`: the item is written, and no stored item is touched.
  pub Stores-write :
      (xs : List T) (x : T)
      → Stores s q xs
      → length xs < capacity s
      → Stores s (record q { buffer = set q.buffer (mask s q.write_counter) x }) xs
  Stores-write xs x v room = record {
    allocated = length-set q.buffer (mask s q.write_counter) x ∙ v.allocated;
    read_small = v.read_small;
    bounded = v.bounded;
    written = v.written;
    cells = rw (write_cell xs v) (
        Holds-set (capacity s) q.buffer q.read_counter (q.read_counter + length xs) x xs
          (omega arith) (omega arith) v.cells);
  }

  -- The second half: the counter moves, and the item that was written counts as stored.
  pub Stores-publish :
      (xs : List T) (x : T)
      → Stores s q xs
      → length xs < capacity s
      → get_elem? q.buffer (mask s q.write_counter) ≡ some x
      → Stores s (record q { write_counter = next s q.write_counter }) (xs ++ x ∷ [])
  Stores-publish xs x v room e = record {
    allocated = v.allocated;
    read_small = v.read_small;
    bounded = omega (arith, length-append {ℓ} xs (x ∷ []));
    written =
        ap (next s) v.written
        ∙ next_write s q.read_counter (length xs)
        ∙ ap (λ (t : ℕ). (q.read_counter + t) % index_end s)
            (omega (arith, length-append {ℓ} xs (x ∷ [])));
    cells =
        Holds-snoc (capacity s) q.buffer q.read_counter x xs v.cells (rw (write_cell xs v) at e);
  }

  -- `++readCounter` forgets the oldest item.
  pub Stores-consume :
      (x : T) (xs : List T)
      → Stores s q (x ∷ xs)
      → Stores s (record q { read_counter = next s q.read_counter }) xs
  Stores-consume x xs v = record {
    allocated = v.allocated;
    read_small = next-lt q.read_counter;
    bounded = omega (arith, v.bounded);
    written = v.written ∙ sym (next_read s q.read_counter (length xs));
    cells =
        Holds-mod (capacity s) q.buffer (q.read_counter + 1) (next s q.read_counter) xs
          (sym (next-mod s ok q.read_counter)) v.cells.1;
  }

module _ {ℓ} (s : Shape) (ok : IsShape s) {T : Type ℓ} where
  -- A full queue refuses, and stays as it is.
  pub push-full :
      (q : Queue T) (xs : List T) (x : T)
      → Stores s q xs
      → length xs ≡ capacity s
      → push s q x ≡ (false, q)
  unfolding push
  push-full q xs x v e = rw (is_full-eq s ok q xs v, eq→== (length xs) (capacity s) e)

  -- `push` answers as the bounded list does, and leaves the queue storing what the list holds.
  pub push_refines :
      (q : Queue T) (xs : List T) (x : T)
      → Stores s q xs
      → ((push s q x).0 ≡ (fifo_push (capacity s) xs x).0)
        × Stores s (push s q x).1 (fifo_push (capacity s) xs x).1
  unfolding push
  push_refines q xs x v = rw (is_full-eq s ok q xs v) (elim (Bool-cases (length xs == capacity s)) [
    | inl full ↦ rw full (refl, v)
    | inr room ↦ rw room (
      refl,
      Stores-publish s ok q' xs x (Stores-write s ok q xs x v (less room)) (less room) (
          get_elem?-set_self q.buffer (mask s q.write_counter) x
            (omega (arith, v.allocated, write_cell-lt s ok q))),
    )
  ])
    where
      q' : Queue T
      q' = record q { buffer = set q.buffer (mask s q.write_counter) x }

      less : (length xs == capacity s) ≡ false → length xs < capacity s
      less h = omega (arith, ==→ne (length xs) (capacity s) h, v.bounded)

  -- `pop` gives the oldest item, or fails on an empty queue and leaves `val` alone.
  pub pop_refines :
      (q : Queue T) (xs : List T) (val : T)
      → Stores s q xs
      → ((pop s q val).0 ≡ (fifo_pop xs val).0)
        × ((pop s q val).1 ≡ (fifo_pop xs val).1)
        × Stores s (pop s q val).2 (fifo_pop xs val).2
  unfolding pop
  pop_refines q [] val v = rw (is_empty-nil s ok q v) (refl, refl, v)
  pop_refines q (x ∷ xs) val v = rw (is_empty-cons s ok q x xs v) (
    refl,
    rw (mask-eq-mod s ok q.read_counter)
        (get_or-get_elem? q.buffer (q.read_counter % capacity s) val x v.cells.0),
    Stores-consume s ok q x xs v,
  )

  -- `peek` shows the oldest item and takes nothing.
  pub peek_refines :
      (q : Queue T) (xs : List T) (item : T)
      → Stores s q xs
      → peek s q item ≡ ((fifo_pop xs item).0, (fifo_pop xs item).1)
  unfolding peek
  peek_refines q [] item v = rw (is_empty-nil s ok q v)
  peek_refines q (x ∷ xs) item v =
      rw (is_empty-cons s ok q x xs v, mask-eq-mod s ok q.read_counter)
        (ap (λ (t : T). (true, t))
          (get_or-get_elem? q.buffer (q.read_counter % capacity s) item x v.cells.0))
