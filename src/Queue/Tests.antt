-- ===== src/Queue/Tests.antt =====
-- LockFreeQueue.h on a queue of four numbers with 8-bit counters that have almost wrapped.
use amprack_6_pc.Base.{ℕ, ◌≡◌, refl, true, false, List, [], ◌∷◌, some, none, arith}
use amprack_6_pc.Queue.{Shape, Queue, is_full, is_empty, size, mask, next, is_power_of_two, fresh}
use amprack_6_pc.Queue.Window.{IsShape, Stores}
use amprack_6_pc.Queue.Runs.{
  Call, pushes, pops, peeks, sizes, pushed, got, sized, run, fifo_run, run_refines,
}
use amprack_6_pc.Queue.Interleave.{
  Threads, Reach, here, then_step, push_begins, push_ends, pop_begins, start, write_item, publish,
  read_item, interleave_fifo,
}

abbrev four : Shape
four = record { capacity_bits = 2; index_bits = 8 }

four-IsShape : IsShape four
four-IsShape = omega arith

-- The reader is at 254 and the writer at 0, after two items.
abbrev wrapped : Queue ℕ
wrapped = record { buffer = 0 ∷ 0 ∷ 7 ∷ 8 ∷ []; write_counter = 0; read_counter = 254 }

wrapped-Stores : Stores four wrapped (7 ∷ 8 ∷ [])
wrapped-Stores = record {
  allocated = refl;
  read_small = omega arith;
  bounded = omega arith;
  written = refl;
  cells = (refl, (refl, tt));
}

-- 0 passes for a power of two.
is_power_of_two-tests :
    (is_power_of_two 128 ≡ true) × (is_power_of_two 100 ≡ false) × (is_power_of_two 0 ≡ true)
unfolding is_power_of_two
is_power_of_two-tests = (refl, refl, refl)

abbrev calls : List (Call ℕ)
calls =
    pushes 9
    ∷ pushes 10
    ∷ pushes 11
    ∷ sizes
    ∷ peeks 0
    ∷ pops 0
    ∷ pops 0
    ∷ pops 0
    ∷ pops 0
    ∷ pops 5
    ∷ []

run_refines_example :
    run four wrapped calls
    ≡ pushed true
      ∷ pushed true
      ∷ pushed false
      ∷ sized 4
      ∷ got true 7
      ∷ got true 7
      ∷ got true 8
      ∷ got true 9
      ∷ got true 10
      ∷ got false 5
      ∷ []
unfolding fifo_run
run_refines_example = run_refines four four-IsShape calls wrapped (7 ∷ 8 ∷ []) wrapped-Stores

abbrev cells : List ℕ
cells = 0 ∷ 0 ∷ 0 ∷ 0 ∷ []

abbrev writing : Threads ℕ
writing = record {
  queue = write_item four (fresh cells) 5;
  producer = some 5;
  consumer = none;
  sent = [];
  received = [];
}

abbrev sent_one : Threads ℕ
sent_one = record {
  queue = publish four (write_item four (fresh cells) 5);
  producer = none;
  consumer = none;
  sent = 5 ∷ [];
  received = [];
}

-- The consumer has read its item, and the producer has not moved on.
abbrev reading : Threads ℕ
reading = record sent_one { consumer = some (read_item four sent_one.queue 0) }

reading-Reach : Reach four (start cells) reading
unfolding start fresh publish write_item is_full is_empty size mask next
reading-Reach =
    then_step (then_step (then_step here (push_begins 5 refl refl refl)) (push_ends 5 refl refl))
      (pop_begins 0 refl refl refl)

interleave_fifo_example : (xs : List ℕ) × (5 ∷ [] ≡ xs) × Stores four sent_one.queue xs
interleave_fifo_example = interleave_fifo four four-IsShape cells {t = reading} refl reading-Reach
