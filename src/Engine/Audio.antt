-- ===== src/Engine/Audio.antt =====
-- process.cc after engine.cc: what the audio thread does with one block.
use mathlib.Core.Path.{subst}
use amprack_6_pc.Base.{ℕ, ◌≤◌, ◌≡◌, ◌∙◌, false, Option, some, List, map, arith, length, ◌>>=◌}
use amprack_6_pc.Manager
use amprack_6_pc.Manager.{Manager, copy_samples}
use amprack_6_pc.Processor.{Lilv, process}
use amprack_6_pc.Processor.Chain.{Wiring, play_all, process-plays}
use amprack_6_pc.Engine.{Engine, build_plugin_chain}
use amprack_6_pc.Engine.Build.{switched_on, plugin_wiring, build_plugin_chain-entries}

module _ {A E : Type 0} (l : Lilv A) where
  -- A block through a list of effects, and then to the queue manager.
  abbrev pub rack_block :
      ℕ
      → List A
      → List A
      → List l.Instance
      → Manager A E
      → List Wiring
      → Option (List l.Instance × List A × Manager A E)
  rack_block n input output xs m ws = do
    buf ← copy_samples n input output
    r ← play_all l n ws xs buf
    m' ← Manager.process input r.1 n m
    some (r.0, r.1, m')

  -- After `buildPluginChain` and with `bypass` clear, the block goes through the plugins that are switched on, in rack order, each on the
  -- output of the one before, and input and result are queued for the other thread.
  pub process-rack :
      (e : Engine A) (n : ℕ) (input output : List A) (xs : List l.Instance) (m : Manager A E)
      → length e.processor.slots ≡ 10
      → length (switched_on e.active_plugins) ≤ 10
      → e.processor.bypass ≡ false
      → (e' : Engine A) × (build_plugin_chain e ≡ some e')
        × (process l e'.processor n input output xs m
            ≡ rack_block n input output xs m (map plugin_wiring (switched_on e.active_plugins)))
  process-rack e n input output xs m long few on =
      let (e', built, entries, _, count, size, same) = build_plugin_chain-entries e long few in
      (
        e',
        built,
        subst (λ ws. process l e'.processor n input output xs m ≡ rack_block n input output xs m ws)
            entries
            (process-plays l e'.processor n input output xs m (same ∙ on)
              (omega (arith, count, size))),
      )
