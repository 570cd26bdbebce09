-- ===== src/Processor/Chain.antt =====
-- process.cc: the loop over the chain reads only the ports and the instance of each index.
use mathlib.Core.Path.{fun_ext}
use amprack_6_pc.Base.{
  ℕ, zero, suc, ◌+◌, ◌≤◌, ◌≡◌, refl, ap, ◌∙◌, Option, none, some, List, [], ◌∷◌, map, arith,
  get_elem?, set, length, take, drop, drop-eq-cons, true, false, if◌then◌else◌, ◌>>=◌,
}
use amprack_6_pc.Manager
use amprack_6_pc.Manager.{Manager, copy_samples}
use amprack_6_pc.Manager.Blocks.{copy_samples-total}
use amprack_6_pc.Processor.{
  Lilv, Slot, Processor, connect, run_slot, run_chain, process, play_block,
}

-- What a chain entry plays: its ports and its instance.
pub record Wiring : Type 0 where
  pub input_port : Option ℕ
  pub input_port2 : Option ℕ
  pub output_port : Option ℕ
  pub output_port2 : Option ℕ
  pub instance_ptr : Option ℕ

abbrev pub wiring : {A : Type 0} → Slot A → Wiring
wiring s = record {
  input_port = s.input_port;
  input_port2 = s.input_port2;
  output_port = s.output_port;
  output_port2 = s.output_port2;
  instance_ptr = s.lilv_instance;
}

module _ {A : Type 0} (l : Lilv A) where
  open l use {Instance, connect_port, run}

  -- One effect on the block that the buffer holds.
  pub play : ℕ → Wiring → List Instance → List A → Option (List Instance × List A)
  play n w xs buf = elim w.instance_ptr [
    | none ↦ some (xs, buf)
    | some ptr ↦ do
      x ← get_elem? xs ptr
      let x₁ = connect l w.output_port (connect l w.input_port x)
      let x₂ = connect l w.output_port2 (connect l w.input_port2 x₁)
      some (set xs ptr (run x₂ n buf).0, (run x₂ n buf).1)
  ]

  pub play_all : ℕ → List Wiring → List Instance → List A → Option (List Instance × List A)
  play_all n [] xs buf = some (xs, buf)
  play_all n (w ∷ ws) xs buf = do r ← play n w xs buf; play_all n ws r.0 r.1

  run_slot-eq-play :
      (n : ℕ) (s : Slot A) (xs : List Instance) (buf : List A)
      → run_slot l n s xs buf ≡ play n (wiring s) xs buf
  unfolding run_slot play
  run_slot-eq-play n s xs buf = refl

  -- The loop over the indices is a walk along the entries.
  pub run_chain-eq-play_all :
      (n count i : ℕ) (slots : List (Slot A)) (xs : List Instance) (buf : List A)
      → i + count ≤ length slots
      → run_chain l n count i slots xs buf
        ≡ play_all n (map wiring (take count (drop i slots))) xs buf
  unfolding run_chain play_all
  run_chain-eq-play_all n zero i slots xs buf h = refl
  run_chain-eq-play_all n (suc count) i slots xs buf h =
      let (s, found, cons) = drop-eq-cons i slots (omega arith) in
      rw (found, cons, run_slot-eq-play n s xs buf)
        (ap (λ k. play n (wiring s) xs buf >>= k)
          (fun_ext (λ r. run_chain-eq-play_all n count (i + 1) slots r.0 r.1 (omega arith))))

  module _ {E : Type 0} where
    -- With `bypass` set the input is copied to the output; no plugin and no callback sees it.
    pub process-bypass :
        (p : Processor A) (n : ℕ) (input output : List A) (xs : List Instance) (m : Manager A E)
        → p.bypass ≡ true
        → n ≤ length input
        → n ≤ length output
        → (buf : List A) × (process l p n input output xs m ≡ some (xs, buf, m))
          × (take n buf ≡ take n input)
          × (length buf ≡ length output)
    unfolding process
    process-bypass p n input output xs m e h k =
        let (buf, copied, same, long) = copy_samples-total n input output h k in
        (
          buf,
          rw copied (ap (λ b. if b then some (xs, buf, m) else play_block l p n input buf xs m) e),
          same,
          long,
        )

    -- Without it, the block goes through the chain, each entry on the output of the one before, and
    -- the input and the result are handed to the queue manager.
    pub process-plays :
        (p : Processor A) (n : ℕ) (input output : List A) (xs : List Instance) (m : Manager A E)
        → p.bypass ≡ false
        → p.active_plugins ≤ length p.slots
        → process l p n input output xs m ≡ (do
          buf ← copy_samples n input output
          r ← play_all n (map wiring (take p.active_plugins p.slots)) xs buf
          m' ← Manager.process input r.1 n m
          some (r.0, r.1, m'))
    unfolding process play_block
    process-plays p n input output xs m e h =
        ap (λ k. copy_samples n input output >>= k)
          (fun_ext (λ buf.
            ap (λ b. if b then some (xs, buf, m) else play_block l p n input buf xs m) e
            ∙ ap (λ r. r >>= λ r. Manager.process input r.1 n m >>= λ m'. some (r.0, r.1, m'))
                (run_chain-eq-play_all n p.active_plugins 0 p.slots xs buf (omega arith))))
