-- ===== src/Rack.antt =====
-- rack.cc: `Rack`, the plugins' widgets and the stepping through presets. The widgets keep the
-- indices of their plugins in `Engine::activePlugins`.
pub mod Widgets
pub mod Stepping
pub mod Adding
pub mod Buttons
pub mod Chooser
mod Tests
use amprack_6_pc.Base.{
  ℕ, zero, suc, ◌+◌, ◌-◌, ◌==◌, ltb, leb, Bool, true, false, Option, none, some, List, [], ◌∷◌,
  get_elem?, set, length, if◌then◌else◌, ◌>>=◌, ◌>>◌, assert,
}
use amprack_6_pc.Engine.{Engine, move_active_plugin_down, move_active_plugin_up}

-- The `int` of an index, which can fall below 0: `negsuc n` is -1 - n.
pub data ℤ : Type 0 where
  pos : ℕ → ℤ
  negsuc : ℕ → ℤ

-- `--` and `++`
pub pred_int : ℤ → ℤ
pred_int (pos zero) = negsuc 0
pred_int (pos (suc n)) = pos n
pred_int (negsuc n) = negsuc (n + 1)

pub suc_int : ℤ → ℤ
suc_int (pos n) = pos (n + 1)
suc_int (negsuc zero) = pos 0
suc_int (negsuc (suc n)) = negsuc n

-- `uiv` as the member `index` of each widget, in the order in which the widgets were made.
pub record Rack (A : Type 0) : Type 0 where
  pub engine : Engine A
  pub uiv : List ℤ

-- `uiv.at (i)->index --` and `++`: a place out of range throws.
pub lower : ℕ → List ℤ → Option (List ℤ)
unfolding pred_int
lower i uiv = do n ← get_elem? uiv i; some (set uiv i (pred_int n))

pub lift : ℕ → List ℤ → Option (List ℤ)
unfolding suc_int
lift i uiv = do n ← get_elem? uiv i; some (set uiv i (suc_int n))

module _ {A : Type 0} where
  -- `move_down` for the index that the widget has; a widget is given by its place in `uiv`. The test
  -- `index >= size ()` compares unsigned numbers, so that a negative index passes for a large one.
  pub move_down_at : ℕ → ℤ → Rack A → Option (Rack A)
  unfolding lower lift
  move_down_at w (negsuc n) r = some r
  move_down_at w (pos index) r = if leb (length r.engine.active_plugins) index then some r else (do
    moved ← move_active_plugin_down index r.engine
    others ← lower (index + 1) r.uiv
    all ← lift w others
    some (record { engine = moved.1; uiv = all }))

  pub move_down : ℕ → Rack A → Option (Rack A)
  unfolding move_down_at
  move_down w r = do index ← get_elem? r.uiv w; move_down_at w index r

  -- A negative index makes an iterator before the beginning, which is a fault.
  pub move_up_at : ℕ → ℤ → Rack A → Option (Rack A)
  unfolding lower lift
  move_up_at w (negsuc n) r = none
  move_up_at w (pos index) r = if index == 0 then some r else (do
    moved ← move_active_plugin_up index r.engine
    others ← lift (index + 1) r.uiv
    all ← lower w others
    some (record { engine = moved.1; uiv = all }))

  pub move_up : ℕ → Rack A → Option (Rack A)
  unfolding move_up_at
  move_up w r = do index ← get_elem? r.uiv w; move_up_at w index r

-- `next_preset` and `prev_preset` on the list of the open tab: the new `patch`, and the preset that
-- is loaded, if any. `at` beyond the list throws.
module _ {J : Type 0} where
  pub next_preset : List J → ℕ → Option (ℕ × Option J)
  next_preset presets patch = if length presets == 0 then some (patch, none) else (do
    let next = if ltb (length presets - 1) (patch + 1) then 0 else patch + 1
    j ← get_elem? presets next
    some (next, some j))

  pub prev_preset : List J → ℕ → Option (ℕ × Option J)
  prev_preset presets patch = if length presets == 0 then some (patch, none) else (do
    let prev = if patch == 0 then length presets - 1 else patch - 1
    j ← get_elem? presets prev
    some (prev, some j))
