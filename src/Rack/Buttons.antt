-- ===== src/Rack/Buttons.antt =====
-- pluginui.cpp: the buttons of a widget that delete its plugin, switch it on and off, and move it.
pub mod Pressed
pub mod Kept
pub mod Sessions
mod Tests
use amprack_6_pc.Base.{
  ℕ, zero, suc, ◌+◌, ◌==◌, ltb, Bool, true, false, Option, none, some, List, [], ◌∷◌, ◌++◌,
  get_elem?, set, take, drop, length, if◌then◌else◌, ◌>>=◌, ◌>>◌, assert,
}
use amprack_6_pc.Plugin.{Plugin}
use amprack_6_pc.Engine.{Engine, build_plugin_chain}
use amprack_6_pc.Rack.{Rack, move_down, move_up}

-- Widgets by their place in `uiv`. `cd_indices` are the indices in their `CallbackData`, which the
-- constructor sets and nothing changes; `sliders` the numbers of their sliders; `cards` the widgets whose card is still shown.
pub record Board (A : Type 0) : Type 0 where
  pub rack : Rack A
  pub cd_indices : List ℕ
  pub sliders : List ℕ
  pub cards : List ℕ

pub without : ℕ → List ℕ → List ℕ
without w [] = []
without w (c ∷ cs) = let rest = without w cs in if c == w then rest else c ∷ rest

module _ {A : Type 0} where
  -- `callback`; erasing at an index that is not in the vector is a fault.
  pub delete_button : ℕ → Board A → Option (Board A)
  unfolding without
  delete_button w b = do
    index ← get_elem? b.cd_indices w
    let ps = b.rack.engine.active_plugins
    assert (ltb index (length ps))
    e ←
        build_plugin_chain
          (record b.rack.engine { active_plugins = take index ps ++ drop (index + 1) ps })
    some (record b { rack = record b.rack { engine = e }; cards = without w b.cards })

  -- `bypass`, with the state of the switch.
  pub bypass : ℕ → Bool → Board A → Option (Board A)
  bypass w value b = do
    index ← get_elem? b.cd_indices w
    p ← get_elem? b.rack.engine.active_plugins index
    e ← build_plugin_chain (record b.rack.engine {
      active_plugins = set b.rack.engine.active_plugins index (record p { active = value });
    })
    some (record b { rack = record b.rack { engine = e } })

  pub bypasses : ℕ → ℕ → Bool → Board A → Option (Board A)
  unfolding bypass
  bypasses zero w value b = some b
  bypasses (suc n) w value b = do b' ← bypass w value b; bypasses n w value b'

  -- A press of the switch. The constructor connects `bypass` to it once for each slider, so that it does
  -- nothing where there are none.
  pub switch_button : ℕ → Bool → Board A → Option (Board A)
  unfolding bypasses
  switch_button w value b = do n ← get_elem? b.sliders w; bypasses n w value b

  -- `pu_move_down`
  pub down_button : ℕ → Board A → Option (Board A)
  down_button w b = do r ← move_down w b.rack; some (record b { rack = r })

  -- `pu_move_up`
  pub up_button : ℕ → Board A → Option (Board A)
  up_button w b = do r ← move_up w b.rack; some (record b { rack = r })
