-- ===== src/Manager/Tests.antt =====
-- LockFreeQueue.cpp: a manager of 128 buffers of four samples, and one callback.
use mathlib.Core.Path.{subst}
use amprack_6_pc.Base.{
  ℕ, zero, suc, ◌≡◌, refl, sym, List, [], ◌∷◌, ◌++◌, some, none, arith, length, map, replicate,
  ◌>>=◌, length-replicate,
}
use amprack_6_pc.Manager.{Manager, Callback, init, create, process, serve}
use amprack_6_pc.Manager.Blocks.{Block, block_of, pending, slots}
use amprack_6_pc.Manager.Delivery.{Holding}
use amprack_6_pc.Manager.Overrun.{process-overruns}
use amprack_6_pc.Manager.Setup.{started, started-Holding, init-Holding}
use amprack_6_pc.Manager.Serve.{Registered, deliver, apply_all, serve-delivers}
use amprack_6_pc.Manager.Session.{
  Job, process_all, process_all-Holding, session-delivers, Fits, AllFit,
}

abbrev cells : List ℕ
cells = replicate 128 0

length-cells : length cells ≡ 128
length-cells = length-replicate {A = ℕ} 128 0

-- The rest of the program is the list of wet samples that were seen.
abbrev M : Type 0
M = Manager ℕ (List ℕ)

abbrev ready_manager : M
ready_manager = started [] cells 4 0

ready-Holding : Holding ready_manager []
ready-Holding = started-Holding [] cells 4 0 length-cells

abbrev initialised : M
initialised = init 0 4 (create [] cells 9)

init-Holding_example :
    Holding initialised [] × (initialised.buffer_size ≡ 4) × (initialised.functions_count ≡ 0)
init-Holding_example = init-Holding [] cells 9 4 0 initialised length-cells refl

abbrev collect : Block ℕ → List ℕ → List ℕ
collect b seen = seen ++ b.wet

abbrev callback : Callback ℕ (List ℕ)
callback b seen = collect (block_of b) seen

abbrev crowded : M
crowded = record ready_manager { functions = replicate 10 (some callback); functions_count = 10 }

-- One callback is registered.
abbrev listening : M
listening = record ready_manager {
  functions = some callback ∷ replicate 9 none;
  functions_count = 1;
}

listening-Holding : Holding listening []
listening-Holding = record {
  first = ready-Holding.first;
  start = ready-Holding.start;
  inv = record {
    is_ready = ready-Holding.inv.is_ready;
    allocated = ready-Holding.inv.allocated;
    counter = ready-Holding.inv.counter;
    queued = ready-Holding.inv.queued;
    owned = ready-Holding.inv.owned;
  };
  view = refl;
}

listening-Registered : Registered listening.functions 0 (collect ∷ [])
listening-Registered = ((callback, refl, λ b e. refl), tt)

abbrev jobs : List (Job ℕ)
jobs =
    record { dry = 1 ∷ 2 ∷ []; wet = 3 ∷ 4 ∷ []; count = 2 }
    ∷ record { dry = 5 ∷ 6 ∷ []; wet = 7 ∷ 8 ∷ []; count = 1 }
    ∷ []

abbrev blocks : List (Block ℕ)
blocks =
    record { dry = 1 ∷ 2 ∷ []; wet = 3 ∷ 4 ∷ []; count = 2 }
    ∷ record { dry = 5 ∷ []; wet = 7 ∷ []; count = 1 }
    ∷ []

-- Two blocks wait.
waiting :
    (m' : M) × (process_all jobs listening ≡ some m')
    × Holding m' blocks
    × (m'.functions ≡ listening.functions)
    × (m'.functions_count ≡ 1)
    × (m'.buffer_size ≡ 4)
waiting =
    process_all-Holding jobs [] listening
      (
        record { room = omega arith; dry_long = omega arith; wet_long = omega arith },
        (record { room = omega arith; dry_long = omega arith; wet_long = omega arith }, tt),
      )
      (omega arith) listening-Holding

serve-delivers_example :
    (m' : M) × (serve 3 0 waiting.0 [] ≡ some (m', 3 ∷ 4 ∷ 7 ∷ [])) × Holding m' []
unfolding deliver apply_all
serve-delivers_example =
    serve-delivers blocks (collect ∷ []) 3 0 waiting.0 [] (omega arith) waiting.4
      (subst (λ fs. Registered fs 0 (collect ∷ [])) (sym waiting.3) listening-Registered) waiting.2

session-delivers_example :
    (m' : M) × ((process_all jobs listening >>= λ m. serve 3 0 m []) ≡ some (m', 3 ∷ 4 ∷ 7 ∷ []))
    × Holding m' []
unfolding deliver apply_all
session-delivers_example =
    session-delivers jobs (collect ∷ []) 3 0 listening [] listening-Holding
      (
        record { room = omega arith; dry_long = omega arith; wet_long = omega arith },
        (record { room = omega arith; dry_long = omega arith; wet_long = omega arith }, tt),
      )
      (omega arith) (omega arith) refl listening-Registered

-- 128 equal blocks fill the queue.
abbrev same_block : Block ℕ
same_block = record { dry = 1 ∷ []; wet = 2 ∷ []; count = 1 }

same_job-Fits : Fits {A = ℕ} 4 (record { dry = 1 ∷ []; wet = 2 ∷ []; count = 1 })
same_job-Fits = record { room = omega arith; dry_long = omega arith; wet_long = omega arith }

abbrev same_jobs : ℕ → List (Job ℕ)
same_jobs n = replicate n (record { dry = 1 ∷ []; wet = 2 ∷ []; count = 1 })

same_jobs-AllFit : (n : ℕ) → AllFit 4 (same_jobs n)
same_jobs-AllFit zero = tt
same_jobs-AllFit (suc n) = (same_job-Fits, same_jobs-AllFit n)

busy :
    (m' : M) × (process_all (same_jobs 128) ready_manager ≡ some m')
    × Holding m' (same_block ∷ replicate 127 same_block)
    × (m'.functions ≡ ready_manager.functions)
    × (m'.functions_count ≡ 0)
    × (m'.buffer_size ≡ 4)
busy =
    process_all-Holding (same_jobs 128) [] ready_manager (same_jobs-AllFit 128)
      (omega (
        arith,
        length-replicate {A = Job ℕ} 128 (record { dry = 1 ∷ []; wet = 2 ∷ []; count = 1 }),
      ))
      ready-Holding

process-overruns_example :
    (m' : M) × (process (8 ∷ []) (9 ∷ []) 1 busy.0 ≡ some m')
    × (m'.queue ≡ busy.0.queue)
    × (pending m'.heap (slots busy.2.first busy.2.start 128)
        ≡ some (record { dry = 8 ∷ []; wet = 9 ∷ []; count = 1 })
          ∷ map some (replicate 127 same_block))
process-overruns_example =
    process-overruns busy.0 same_block (replicate 127 same_block) (8 ∷ []) (9 ∷ []) 1
      (length-replicate {A = Block ℕ} 127 same_block) (omega (arith, busy.5)) (omega arith)
      (omega arith) busy.2
