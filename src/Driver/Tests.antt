-- ===== src/Driver/Tests.antt =====
-- jack.cc with a server that works, but for the capture port.
use amprack_6_pc.Base.{◌≡◌, refl, true, false, some, [], ◌∷◌}
use amprack_6_pc.Driver.Success.{Connected, open_driver-Connected}
use amprack_6_pc.Driver.{
  Driver, connect_output, connect_input, activate, register_ports, Jack, returned, closed,
  open_driver,
}

abbrev server : Jack
server = record {
  client_open = some 1;
  server_failed = false;
  input_register = some 10;
  output_register = some 11;
  activate_fails = false;
  capture_ports = some (20, 21 ∷ []);
  playback_ports = some (30, 31 ∷ []);
  input_connect_fails = false;
  output_connect_fails = false;
  deactivate_fails = false;
  buffer_size = 512;
  sample_rate = 44100;
}

-- One that refuses the connection of the capture port.
abbrev deaf_server : Jack
deaf_server = record server { input_connect_fails = true }

abbrev deaf : Driver
deaf = record {
  client = some 1;
  input_port = some 10;
  output_port = some 11;
  has_callback = true;
  active = true;
  connections = (11, 30) ∷ [];
}

open_driver-test : open_driver deaf_server closed ≡ returned true deaf
unfolding open_driver register_ports activate connect_input connect_output
open_driver-test = refl

open_driver-Connected_example : Connected deaf_server deaf
open_driver-Connected_example = (open_driver-Connected deaf_server deaf).0 open_driver-test
