-- ===== src/Rack/Buttons/Sessions.antt =====
-- rack.cc and pluginui.cpp: sequences of the operations on the rack, in any order.
use Prim.Native.String.{String}
use mathlib.Core.Path.{subst}
use amprack_6_pc.Base.{ℕ, ◌≡◌, sym, Bool, some, List}
use amprack_6_pc.Plugin.{Plugin}
use amprack_6_pc.Engine.{clear}
use amprack_6_pc.Engine.Steps.{InStep, clear-InStep}
use amprack_6_pc.Rack.{Rack}
use amprack_6_pc.Rack.Adding.{Catalogue, add_plugin_by_name}
use amprack_6_pc.Rack.Adding.Kept.{add_plugin_by_name-InStep}
use amprack_6_pc.Patch.{Knob, Toolkit}
use amprack_6_pc.Storage.{Library, Loader, Desk, Preset, load_json}
use amprack_6_pc.Storage.Kept.{load_json-InStep}
use amprack_6_pc.Rack.Buttons.{Board, delete_button, switch_button, down_button, up_button}
use amprack_6_pc.Rack.Buttons.Kept.{
  delete_button-InStep, switch_button-InStep, down_button-InStep, up_button-InStep,
}

-- What can happen to the rack. A plugin or a preset that is loaded brings widgets of its own, and
-- clearing takes the widgets away, so that their indices and cards are not those from before; they
-- are left open here.
module _ {A F S B : Type 0} (l : Library) (k : Toolkit F S) (ld : Loader A B) (c : Catalogue A)
    (knobs : Plugin A → List (Knob F)) where
  pub data Step : Board A → Board A → Type 0 where
    added :
        {b b' : Board A} (name : String) (ok : Bool)
        → add_plugin_by_name c name b.rack ≡ some (ok, b'.rack)
        → Step b b'
    loaded :
        {b b' : Board A} (j : Preset) (d d' : Desk A S B)
        → d.rack ≡ b.rack
        → load_json l k ld c knobs j d ≡ some d'
        → d'.rack ≡ b'.rack
        → Step b b'
    deleted : {b b' : Board A} (w : ℕ) → delete_button w b ≡ some b' → Step b b'
    switched :
        {b b' : Board A} (w : ℕ) (value : Bool) → switch_button w value b ≡ some b' → Step b b'
    moved_down : {b b' : Board A} (w : ℕ) → down_button w b ≡ some b' → Step b b'
    moved_up : {b b' : Board A} (w : ℕ) → up_button w b ≡ some b' → Step b b'
    cleared : {b b' : Board A} → clear b.rack.engine ≡ some b'.rack.engine → Step b b'

  pub data Session : Board A → Board A → Type 0 where
    opened : {b : Board A} → Session b b
    went_on : {b b' b'' : Board A} → Session b b' → Step b' b'' → Session b b''

  Step-InStep : (b b' : Board A) → Step b b' → InStep b.rack.engine → InStep b'.rack.engine
  Step-InStep b b' (added name ok run) v = add_plugin_by_name-InStep c name b.rack ok b'.rack v run
  Step-InStep b b' (loaded j d d' from run to) v =
      subst (λ (r : Rack A). InStep r.engine) to
        (load_json-InStep l k ld c knobs j d d'
          (subst (λ (r : Rack A). InStep r.engine) (sym from) v) run)
  Step-InStep b b' (deleted w run) v = delete_button-InStep w b b' v run
  Step-InStep b b' (switched w value run) v = switch_button-InStep w value b b' v run
  Step-InStep b b' (moved_down w run) v = down_button-InStep w b b' v run
  Step-InStep b b' (moved_up w run) v = up_button-InStep w b b' v run
  Step-InStep b b' (cleared run) v = clear-InStep b.rack.engine b'.rack.engine v run

  -- The rack starts with at most ten plugins switched on, and with a chain of the audio thread that
  -- holds these and no others, in order. After any sequence of additions by name, presets that are
  -- loaded, deletions, switches, moves and clearings that run without a fault, this still holds.
  pub Session-InStep :
      (b b' : Board A) → Session b b' → InStep b.rack.engine → InStep b'.rack.engine
  Session-InStep b b' opened v = v
  Session-InStep b b'' (went_on {b' = b'} before step) v =
      Step-InStep b' b'' step (Session-InStep b b' before v)
