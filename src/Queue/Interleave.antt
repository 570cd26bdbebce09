-- ===== src/Queue/Interleave.antt =====
-- One producer thread and one consumer thread on a LockFreeQueue: `push` and `pop` are cut where
-- the other thread can run in between, before each counter moves.
use mathlib.Core.Path.{subst}
use amprack_6_pc.Base.{
  ◌%◌, ◌<◌, ◌≡◌, refl, sym, ap, ◌∙◌, true, false, List, [], ◌∷◌, ◌++◌, Option, some, none, arith,
  ==→ne, if◌then◌else◌, length, get_elem?, get_or, set, get_elem?-set_self, get_or-get_elem?,
  append_assoc,
}
use amprack_6_pc.Queue.{Shape, Queue, capacity, mask, next, is_empty, is_full, push, pop, fresh}
use amprack_6_pc.Queue.Window.{IsShape, Stores, mask-eq-mod, is_empty-nil, is_full-eq}
use amprack_6_pc.Queue.Refine.{Stores-write, Stores-publish, Stores-consume, write_cell-lt}
use amprack_6_pc.Queue.Runs.{fresh-Stores}

module _ {ℓ} (s : Shape) {T : Type ℓ} where
  -- `buffer[mask(writeCounter)] = item`
  unfoldable pub write_item : Queue T → T → Queue T
  write_item q item = record q { buffer = set q.buffer (mask s q.write_counter) item }

  -- `++writeCounter`
  unfoldable pub publish : Queue T → Queue T
  publish q = record q { write_counter = next s q.write_counter }

  -- `val = buffer[mask(readCounter)]`
  unfoldable pub read_item : Queue T → T → T
  read_item q val = get_or q.buffer (mask s q.read_counter) val

  -- `++readCounter`
  unfoldable pub consume : Queue T → Queue T
  consume q = record q { read_counter = next s q.read_counter }

  -- With nothing in between, the halves are the whole operations.
  pub push_halves :
      (q : Queue T) (item : T)
      → push s q item ≡ (if is_full s q then (false, q) else (true, publish (write_item q item)))
  unfolding push publish write_item
  push_halves q item = refl

  pub pop_halves :
      (q : Queue T) (val : T)
      → pop s q val ≡ (if is_empty s q then (false, val, q) else (true, read_item q val, consume q))
  unfolding pop read_item consume
  pop_halves q val = refl

-- The queue, what each thread is in the middle of, and the whole history on both sides.
pub record Threads {ℓ} (T : Type ℓ) : Type ℓ where
  pub queue : Queue T
  pub producer : Option T
  pub consumer : Option T
  pub sent : List T
  pub received : List T

unfoldable pub start {ℓ} : {T : Type ℓ} → List T → Threads T
unfolding fresh
start buf = record { queue = fresh buf; producer = none; consumer = none; sent = []; received = [] }

-- A step of either thread. The indeterminate `val` of `pop` may hold anything.
pub data Step {ℓ} (s : Shape) {T : Type ℓ} (t u : Threads T) : Type ℓ where
  push_begins :
      (x : T)
      → t.producer ≡ none
      → is_full s t.queue ≡ false
      → u ≡ record t { queue = write_item s t.queue x; producer = some x }
      → Step s t u
  push_ends :
      (x : T)
      → t.producer ≡ some x
      → u ≡ record t { queue = publish s t.queue; producer = none; sent = t.sent ++ x ∷ [] }
      → Step s t u
  pop_begins :
      (val : T)
      → t.consumer ≡ none
      → is_empty s t.queue ≡ false
      → u ≡ record t { consumer = some (read_item s t.queue val) }
      → Step s t u
  pop_ends :
      (x : T)
      → t.consumer ≡ some x
      → u ≡ record t { queue = consume s t.queue; consumer = none; received = t.received ++ x ∷ [] }
      → Step s t u

pub data Reach {ℓ} (s : Shape) {T : Type ℓ} (t : Threads T) : Threads T → Type ℓ where
  here : Reach s t t
  then_step : {u v : Threads T} → Reach s t u → Step s u v → Reach s t v

-- `xs` is in the queue, and what a thread has begun agrees with it.
pub record Inv {ℓ} (s : Shape) {T : Type ℓ} (t : Threads T) (xs : List T) : Type ℓ where
  pub stores : Stores s t.queue xs
  pub history : t.sent ≡ t.received ++ xs
  pub producing :
      (x : T)
      → t.producer ≡ some x
      → (length xs < capacity s)
        × (get_elem? t.queue.buffer (mask s t.queue.write_counter) ≡ some x)
  pub consuming : (x : T) → t.consumer ≡ some x → (ys : List T) × (xs ≡ x ∷ ys)

module _ {ℓ} (s : Shape) (ok : IsShape s) {T : Type ℓ} where
  push_begins-Inv :
      (t : Threads T) (xs : List T) (x : T)
      → Inv s t xs
      → is_full s t.queue ≡ false
      → Inv s (record t { queue = write_item s t.queue x; producer = some x }) xs
  unfolding write_item
  push_begins-Inv t xs x v open_slot = record {
    stores = Stores-write s ok t.queue xs x v.stores room;
    history = v.history;
    producing = λ y e.
        (room, get_elem?-set_self t.queue.buffer (mask s t.queue.write_counter) x inside ∙ e);
    consuming = v.consuming;
  }
    where
      room : length xs < capacity s
      room = omega (
        arith,
        ==→ne (length xs) (capacity s) (sym (is_full-eq s ok t.queue xs v.stores) ∙ open_slot),
        v.stores.bounded,
      )

      inside : mask s t.queue.write_counter < length t.queue.buffer
      inside = omega (arith, v.stores.allocated, write_cell-lt s ok t.queue)

  push_ends-Inv :
      (t : Threads T) (xs : List T) (x : T)
      → Inv s t xs
      → t.producer ≡ some x
      → Inv s
          (record t { queue = publish s t.queue; producer = none; sent = t.sent ++ x ∷ [] })
          (xs ++ x ∷ [])
  unfolding publish
  push_ends-Inv t xs x v e = record {
    stores = Stores-publish s ok t.queue xs x v.stores (v.producing x e).0 (v.producing x e).1;
    history = ap (λ l. l ++ x ∷ []) v.history ∙ append_assoc t.received xs (x ∷ []);
    producing = λ y n. ground arith;
    consuming = λ y c. ((v.consuming y c).0 ++ x ∷ [], ap (λ l. l ++ x ∷ []) (v.consuming y c).1);
  }

  pop_begins-Inv :
      (t : Threads T) (xs : List T) (val : T)
      → Inv s t xs
      → is_empty s t.queue ≡ false
      → Inv s (record t { consumer = some (read_item s t.queue val) }) xs
  unfolding read_item
  pop_begins-Inv t [] val v some_item = cc (is_empty-nil s ok t.queue v.stores)
  pop_begins-Inv t (x ∷ xs) val v some_item = record {
    stores = v.stores;
    history = v.history;
    producing = v.producing;
    consuming = λ y e. (xs, ground (arith, oldest));
  }
    where
      oldest : get_or t.queue.buffer (mask s t.queue.read_counter) val ≡ x
      oldest = rw (mask-eq-mod s ok t.queue.read_counter) (
          get_or-get_elem? t.queue.buffer (t.queue.read_counter % capacity s) val x
            v.stores.cells.0)

  pop_ends-Inv :
      (t : Threads T) (xs : List T) (x : T)
      → Inv s t xs
      → t.consumer ≡ some x
      → (ys : List T) × Inv s
          (record t { queue = consume s t.queue; consumer = none; received = t.received ++ x ∷ [] })
          ys
  unfolding consume
  pop_ends-Inv t xs x v e =
      let (ys, split) = v.consuming x e in
      (
        ys,
        record {
          stores = Stores-consume s ok t.queue x ys (subst (Stores s t.queue) split v.stores);
          history =
              v.history ∙ ap (◌++◌ t.received) split ∙ sym (append_assoc t.received (x ∷ []) ys);
          producing =
              λ y p. (omega (arith, (v.producing y p).0, ap length split), (v.producing y p).1);
          consuming = λ y n. ground arith;
        },
      )

  pub Step-Inv :
      {t u : Threads T} (xs : List T) → Step s t u → Inv s t xs → (ys : List T) × Inv s u ys
  Step-Inv {t} xs (push_begins x idle room e) v = rw e (xs, push_begins-Inv t xs x v room)
  Step-Inv {t} xs (push_ends x mid e) v = rw e (xs ++ x ∷ [], push_ends-Inv t xs x v mid)
  Step-Inv {t} xs (pop_begins val idle some_item e) v =
      rw e (xs, pop_begins-Inv t xs val v some_item)
  Step-Inv {t} xs (pop_ends x mid e) v = rw e (pop_ends-Inv t xs x v mid)

  start-Inv : (buf : List T) → length buf ≡ capacity s → Inv s (start buf) []
  unfolding start
  start-Inv buf e = record {
    stores = fresh-Stores s ok buf e;
    history = refl;
    producing = λ x n. ground arith;
    consuming = λ x n. ground arith;
  }

  pub Reach-Inv :
      {t u : Threads T} (xs : List T) → Inv s t xs → Reach s t u → (ys : List T) × Inv s u ys
  Reach-Inv xs v here = (xs, v)
  Reach-Inv xs v (then_step r st) = let (ys, w) = Reach-Inv xs v r in Step-Inv ys st w

  -- However the two threads interleave, nothing is lost, repeated or reordered: what was sent is
  -- what was received followed by what the queue stores.
  pub interleave_fifo :
      (buf : List T) {t : Threads T}
      → length buf ≡ capacity s
      → Reach s (start buf) t
      → (xs : List T) × (t.sent ≡ t.received ++ xs) × Stores s t.queue xs
  interleave_fifo buf e r =
      let (xs, v) = Reach-Inv [] (start-Inv buf e) r in (xs, v.history, v.stores)
