-- ===== src/Plugin.antt =====
-- Plugin.h: what the rest of the program keeps about one loaded effect.
pub mod Ports
pub mod Lilv
pub mod Ladspa
pub mod Json
mod Tests
use Prim.Native.String.{String}
use amprack_6_pc.Base.{ℕ, Bool, Option}

-- `SharedLibrary::PluginType`.
pub data PluginType : Type 0 where
  ladspa lv2 lilv : PluginType

-- Ports are indices, and `none` is the -1 of a port that the plugin lacks. `handle`, `descriptor`
-- and `instance` are pointers; `none` is null. `gain` is a sample value.
pub record Plugin (A : Type 0) : Type 0 where
  pub lv2_name : String
  pub active : Bool
  pub kind : PluginType
  pub input_port : Option ℕ
  pub input_port2 : Option ℕ
  pub output_port : Option ℕ
  pub output_port2 : Option ℕ
  pub run_adding_gain : A
  pub handle : Option ℕ
  pub descriptor : Option ℕ
  pub instance_ptr : Option ℕ
