-- ===== src/Driver.antt =====
-- jack.h and jack.cc: `AudioDriver`, which connects the program to a JACK server; and what the
-- constructor of `Engine` in engine.cc does with it.
pub mod Connection
pub mod Success
mod Tests
use amprack_6_pc.Base.{
  ℕ, Bool, true, false, not, ◌||◌, Option, none, some, List, [], ◌∷◌, if◌then◌else◌, ◌>>=◌,
}

-- A JACK server, as its answers to one start of the program; ports are numbers. `none` is NULL, and
-- a Boolean whose name ends in `fails` is a result other than 0. JACK returns no empty list.
pub record Jack : Type 0 where
  pub client_open : Option ℕ
  pub server_failed : Bool
  pub input_register : Option ℕ
  pub output_register : Option ℕ
  pub activate_fails : Bool
  pub capture_ports : Option (ℕ × List ℕ)
  pub playback_ports : Option (ℕ × List ℕ)
  pub input_connect_fails : Bool
  pub output_connect_fails : Bool
  pub deactivate_fails : Bool
  pub buffer_size : ℕ
  pub sample_rate : ℕ

-- The members, and what the server knows of the client: whether it runs, and its connections from
-- a port to a port, the newest first.
pub record Driver : Type 0 where
  pub client : Option ℕ
  pub input_port : Option ℕ
  pub output_port : Option ℕ
  pub has_callback : Bool
  pub active : Bool
  pub connections : List (ℕ × ℕ)

abbrev pub closed : Driver
closed = record {
  client = none;
  input_port = none;
  output_port = none;
  has_callback = false;
  active = false;
  connections = [];
}

-- A call returns, or it ends the program by `exit (1)`.
pub data Outcome : Type 0 where
  returned : Bool → Driver → Outcome
  exited : Outcome

module _ (j : Jack) where
  -- The part of `activate` from the playback ports on.
  pub connect_output : ℕ → Driver → Bool × Driver
  connect_output out d = elim j.playback_ports [
    | none ↦ (false, d)
    | some ports ↦
        if j.output_connect_fails
        then (false, d)
        else (true, record d { connections = (out, ports.0) ∷ d.connections })
  ]

  -- The capture side: a connection that fails is only logged.
  pub connect_input : ℕ → ℕ → Driver → Bool × Driver
  unfolding connect_output
  connect_input inp out d = elim j.capture_ports [
    | none ↦ (false, d)
    | some ports ↦ connect_output out (
        if j.input_connect_fails
        then d
        else record d { connections = (ports.0, inp) ∷ d.connections })
  ]

  pub activate : ℕ → ℕ → Driver → Bool × Driver
  unfolding connect_input
  activate inp out d =
      if j.activate_fails then (false, d) else connect_input inp out (record d { active = true })

  pub deactivate : Driver → Bool × Driver
  deactivate d =
      if j.deactivate_fails
      then (false, d)
      else (true, record d { active = false; connections = [] })

  -- `open` from the registration of the ports on.
  pub register_ports : Driver → Outcome
  unfolding activate
  register_ports d = elim j.input_register [
    | none ↦ exited
    | some inp ↦ elim j.output_register [
      | none ↦ exited
      | some out ↦
          let result =
            activate inp out (record d { input_port = some inp; output_port = some out }) in
          returned result.0 result.1
    ]
  ]

  pub open_driver : Driver → Outcome
  unfolding register_ports
  open_driver d = elim j.client_open [
    | none ↦ returned false (record d { client = none })
    | some c ↦
        let opened = record d { client = some c } in
        if j.server_failed
        then returned false opened
        else register_ports (record opened { has_callback = true })
  ]

  -- `jack_get_buffer_size` and `jack_get_sample_rate` on a null client are a fault.
  pub get_buffer_size : Driver → Option ℕ
  get_buffer_size d = d.client >>= λ c. some j.buffer_size

  pub get_sample_rate : Driver → Option ℕ
  get_sample_rate d = d.client >>= λ c. some j.sample_rate

-- `Engine::openAudio`: whether it opened, and the sample rate, which has a default.
pub open_audio : Jack → Bool → Driver → Option (Bool × ℕ)
unfolding get_sample_rate
open_audio j val d =
    if val then (get_sample_rate j d >>= λ rate. some (true, rate)) else some (false, 48000)

-- What the constructor of `Engine` gets from the driver: the sample rate, and the buffer size for
-- the queue manager, which it asks for whether the driver opened or not. The program can also have
-- ended before.
pub data Start : Type 0 where
  started : ℕ → ℕ → Start
  ended crashed : Start

pub start_engine : Jack → Start
unfolding open_driver open_audio get_buffer_size
start_engine j = elim (open_driver j closed) [
  | exited ↦ ended
  | returned val d ↦ elim (open_audio j val d) [
    | none ↦ crashed
    | some audio ↦ elim (get_buffer_size j d) [ none ↦ crashed | some n ↦ started audio.1 n ]
  ]
]
