-- ===== src/Processor/Tests.antt =====
-- process.cc with `bypass` set.
use amprack_6_pc.Base.{ℕ, true, false, [], none}
use amprack_6_pc.Manager.{Manager}
use amprack_6_pc.Processor.{Processor, Lilv}

abbrev host : Lilv ℕ
host = record { Instance = ℕ; connect_port = λ x p. x; run = λ x n buf. (x, buf) }

abbrev bypassed : Processor ℕ
bypassed = record { slots = []; active_plugins = 0; bypass = true; recording = false }

abbrev quiet : Manager ℕ Unit
quiet = record {
  heap = [];
  queue = record { buffer = []; write_counter = 0; read_counter = 0 };
  pool = none;
  buffer_size = 0;
  buffer_counter = 0;
  ready = false;
  functions = [];
  functions_count = 0;
  thread_started = false;
}
