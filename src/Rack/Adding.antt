-- ===== src/Rack/Adding.antt =====
-- rack.cc: `addPluginByName`, which looks a plugin up and adds it with its widget.
pub mod Kept
pub mod Loaded
use Prim.Native.String.{String}
use text.Mathlib.Text.{◌==◌ as text_eq}
use amprack_6_pc.Base.{
  ℕ, zero, suc, ◌+◌, ◌-◌, ◌≤◌, ◌≡◌, refl, sym, ap, ◌∙◌, arith, Bool, true, false, Option, none,
  some, List, [], ◌∷◌, ◌++◌, map, length, length-append, append_assoc, append-nil, Option-cases,
  if◌then◌else◌, ◌>>=◌, ◌>>◌, inl, inr,
}
use amprack_6_pc.Plugin.{Plugin}
use amprack_6_pc.Engine.{Engine, add_plugin, clear, build_plugin_chain, set_bypass}
use amprack_6_pc.Engine.Build.{switched_on, plugin_wiring, chain, build_plugin_chain-entries}
use amprack_6_pc.Engine.Order.{switched_on-append}
use amprack_6_pc.Rack.{Rack, pos}

-- An entry of `lv2Json` or `ladspaJson`: `name` is the dumped text without its quotes, and `index`
-- is the member `index` or `plugin`. Whether the plugin takes a file is not kept.
pub record Entry : Type 0 where
  pub name : String
  pub library : String
  pub index : ℕ

-- The first entry with a name.
unfoldable pub find_entry : List Entry → String → Option Entry
find_entry [] requested = none
find_entry (x ∷ xs) requested =
    let rest = find_entry xs requested in if text_eq x.name requested then some x else rest

-- The two tables, and what `new Plugin (...)` makes for a library and an index.
pub record Catalogue (A : Type 0) : Type 0 where
  pub lv2_json : List Entry
  pub ladspa_json : List Entry
  pub load : String → ℕ → Option (Plugin A)

module _ {A : Type 0} (c : Catalogue A) where
  -- The loop over one table.
  pub try_table : List Entry → String → Engine A → Option (Bool × Engine A)
  unfolding find_entry
  try_table xs requested e = elim (find_entry xs requested) [
    | none ↦ some (false, e)
    | some x ↦ add_plugin (c.load x.library x.index) e
  ]

  pub add_plugin_by_name : String → Rack A → Option (Bool × Rack A)
  unfolding try_table
  add_plugin_by_name requested r = do
    first ← try_table c.lv2_json requested r.engine
    second ← (if first.0 then some first else try_table c.ladspa_json requested first.1)
    some (
        if second.0
        then (
          true,
          record {
            engine = second.1;
            uiv = r.uiv ++ pos (length second.1.active_plugins - 1) ∷ [];
          },
        )
        else (false, record r { engine = second.1 }))

  -- What a name stands for: the plugin of the LV2 table, or else that of the LADSPA table.
  unfoldable pub made : List Entry → String → Option (Plugin A)
  unfolding find_entry
  made xs n = find_entry xs n >>= λ x. c.load x.library x.index

  unfoldable pub found : String → List (Plugin A)
  unfolding made
  found n = elim (made c.lv2_json n) [
    | some p ↦ p ∷ []
    | none ↦ elim (made c.ladspa_json n) [ some p ↦ p ∷ [] | none ↦ [] ]
  ]
