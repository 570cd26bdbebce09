-- ===== src/Engine.antt =====
-- engine.h and engine.cc: the `Engine`'s list of plugins, and how it is turned into the arrays
-- that the audio thread reads.
pub mod Audio
pub mod Build
pub mod Order
pub mod Steps
mod Tests
use amprack_6_pc.Base.{
  ℕ, suc, ◌+◌, ◌-◌, ◌==◌, leb, ltb, Bool, true, false, Option, none, some, List, [], ◌∷◌, ◌++◌,
  length, get_elem?, set, take, drop, replicate, ◌>>=◌, ◌>>◌, assert, if◌then◌else◌,
}
use amprack_6_pc.Plugin.{Plugin, PluginType, ladspa, lv2, lilv}
use amprack_6_pc.Processor.{Processor, Slot, max_plugins}

-- `sample_rate` 0 and the JSON tables are not kept here: no operation below reads them.
pub record Engine (A : Type 0) : Type 0 where
  pub active_plugins : List (Plugin A)
  pub processor : Processor A

module _ {A : Type 0} where
  -- What the loop of `buildPluginChain` stores for a plugin; only LADSPA and LV2 plugins have
  -- their function pointers stored, and a plugin of another type leaves what was there. The descriptor
  -- of these two is not null; the program makes only plugins of liblilv.
  unfoldable pub store_plugin : Plugin A → Slot A → Slot A
  store_plugin p s = record {
    input_port = p.input_port;
    input_port2 = p.input_port2;
    output_port = p.output_port;
    output_port2 = p.output_port2;
    run_adding_gain = p.run_adding_gain;
    handle = p.handle;
    descriptor = elim p.kind [ ladspa ↦ p.descriptor | lv2 ↦ p.descriptor | lilv ↦ s.descriptor ];
    lilv_instance = p.instance_ptr;
  }

  -- One round of the loop. An index beyond the arrays is a fault.
  unfoldable pub add_to_chain : Plugin A → Processor A → Option (Processor A)
  unfolding store_plugin
  add_to_chain p proc = do
    old ← get_elem? proc.slots proc.active_plugins
    some (record proc {
      slots = set proc.slots proc.active_plugins (store_plugin p old);
      active_plugins = proc.active_plugins + 1;
    })

  -- `if (!p->active) continue;`
  unfoldable pub chain_round : Plugin A → Processor A → Option (Processor A)
  unfolding add_to_chain
  chain_round p proc = if p.active then add_to_chain p proc else some proc

  unfoldable pub build_from : List (Plugin A) → Processor A → Option (Processor A)
  unfolding chain_round
  build_from [] proc = some proc
  build_from (p ∷ ps) proc = do proc' ← chain_round p proc; build_from ps proc'

  unfoldable pub build_plugin_chain : Engine A → Option (Engine A)
  unfolding build_from
  build_plugin_chain e = do
    proc ← build_from e.active_plugins (record e.processor { active_plugins = 0 })
    some (record e { processor = proc })

  abbrev pub set_bypass : Bool → Engine A → Engine A
  set_bypass b e = record e { processor = record e.processor { bypass = b } }

  -- `addPlugin`, with what `new Plugin (uri, ...)` made: `none` where its `uri` is null. The result
  -- tells whether it was added.
  unfoldable pub add_plugin : Option (Plugin A) → Engine A → Option (Bool × Engine A)
  unfolding build_plugin_chain
  add_plugin made e = elim made [
    | none ↦ some (false, set_bypass false (set_bypass true e))
    | some p ↦ do
      let e₁ = set_bypass true e
      e₂ ← build_plugin_chain (record e₁ { active_plugins = e.active_plugins ++ p ∷ [] })
      some (true, set_bypass false e₂)
  ]

-- `std::rotate (begin + first, begin + middle, begin + last)`: the part from `middle` comes before
-- the part from `first`. Iterators beyond the end are a fault.
pub rotate {ℓ} : {T : Type ℓ} → ℕ → ℕ → ℕ → List T → Option (List T)
rotate first middle last xs = do
  assert (leb last (length xs))
  let front = take first xs
  let left = take (middle - first) (drop first xs)
  let right = take (last - middle) (drop middle xs)
  some (front ++ (right ++ (left ++ drop last xs)))

module _ {A : Type 0} where
  -- The results are the plugin's new index and the engine.
  pub move_active_plugin_down : ℕ → Engine A → Option (ℕ × Engine A)
  unfolding rotate build_plugin_chain
  move_active_plugin_down p e = if p == length e.active_plugins then some (p, e) else do
    ps ← rotate p (p + 1) (p + 2) e.active_plugins
    e' ← build_plugin_chain (record e { active_plugins = ps })
    some (p + 1, e')

  pub move_active_plugin_up : ℕ → Engine A → Option (ℕ × Engine A)
  unfolding rotate build_plugin_chain
  move_active_plugin_up p e = if p == 0 then some (p, e) else do
    ps ← rotate (p - 1) p (p + 1) e.active_plugins
    e' ← build_plugin_chain (record (set_bypass true e) { active_plugins = ps })
    some (p - 1, set_bypass false e')

  -- `Rack::clear`, as far as the engine goes.
  unfoldable pub clear : Engine A → Option (Engine A)
  unfolding build_plugin_chain
  clear e = build_plugin_chain (record e { active_plugins = [] })
