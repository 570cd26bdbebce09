-- ===== src/Processor.antt =====
-- process.h and process.cc: `Processor`, which runs the chain of effects on each block.
pub mod Chain
mod Tests
use amprack_6_pc.Base.{
  ℕ, zero, suc, ◌+◌, Bool, true, false, Option, none, some, List, [], ◌∷◌, get_elem?, set,
  replicate, ◌>>=◌, if◌then◌else◌,
}
use amprack_6_pc.Manager
use amprack_6_pc.Manager.{Manager, copy_samples}

-- liblilv, which is not part of the program: plugin instances, connecting a port to the block's
-- buffer, and running an instance for a number of frames on what that buffer holds.
pub record Lilv (A : Type 0) : Type 1 where
  pub Instance : Type 0
  pub connect_port : Instance → ℕ → Instance
  pub run : Instance → ℕ → List A → Instance × List A

abbrev pub max_plugins : ℕ
max_plugins = 10

-- One index of the arrays of `Processor`. `descriptor` stands for the arrays of function pointers
-- also, which are read out of it.
pub record Slot (A : Type 0) : Type 0 where
  pub input_port : Option ℕ
  pub input_port2 : Option ℕ
  pub output_port : Option ℕ
  pub output_port2 : Option ℕ
  pub run_adding_gain : A
  pub handle : Option ℕ
  pub descriptor : Option ℕ
  pub lilv_instance : Option ℕ

pub record Processor (A : Type 0) : Type 0 where
  pub slots : List (Slot A)
  pub active_plugins : ℕ
  pub bypass : Bool
  pub recording : Bool

module _ {A : Type 0} (l : Lilv A) where
  open l use {Instance, connect_port, run}

  -- `if (port != -1) lilv_instance_connect_port (...)`
  abbrev pub connect : Option ℕ → Instance → Instance
  connect none x = x
  connect (some p) x = connect_port x p

  -- The body of the loop for one index; `none` is a bad pointer. A null instance is skipped.
  pub run_slot : ℕ → Slot A → List Instance → List A → Option (List Instance × List A)
  run_slot n s xs buf = elim s.lilv_instance [
    | none ↦ some (xs, buf)
    | some ptr ↦ do
      x ← get_elem? xs ptr
      let x₁ = connect s.output_port (connect s.input_port x)
      let x₂ = connect s.output_port2 (connect s.input_port2 x₁)
      let (x₃, buf') = run x₂ n buf
      some (set xs ptr x₃, buf')
  ]

  -- `count` indices from `i` on.
  pub run_chain :
      ℕ → ℕ → ℕ → List (Slot A) → List Instance → List A → Option (List Instance × List A)
  unfolding run_slot
  run_chain n zero i slots xs buf = some (xs, buf)
  run_chain n (suc count) i slots xs buf = do
    s ← get_elem? slots i
    r ← run_slot n s xs buf
    run_chain n count (i + 1) slots r.0 r.1

  module _ {E : Type 0} where
    -- The part of `process` after the test of `bypass`.
    pub play_block :
        Processor A
        → ℕ
        → List A
        → List A
        → List Instance
        → Manager A E
        → Option (List Instance × List A × Manager A E)
    unfolding run_chain
    play_block p n input buf xs m = do
      r ← run_chain n p.active_plugins 0 p.slots xs buf
      m' ← Manager.process input r.1 n m
      some (r.0, r.1, m')

    -- The instances, the output buffer and the queue manager afterwards.
    pub process :
        Processor A
        → ℕ
        → List A
        → List A
        → List Instance
        → Manager A E
        → Option (List Instance × List A × Manager A E)
    unfolding play_block
    process p n input output xs m = do
      buf ← copy_samples n input output
      if p.bypass then some (xs, buf, m) else play_block p n input buf xs m
