-- ===== src/Driver/Success.antt =====
-- jack.cc: what the server has answered when `open` returns true.
use mathlib.Core.Path.{subst}
use amprack_6_pc.Base.{
  ℕ, ◌≡◌, ◌↔◌, refl, sym, ap, ◌∙◌, true, false, some, List, [], ◌∷◌, if◌then◌else◌, Bool-cases,
  Option-cases, inl, inr, Bool,
}
use amprack_6_pc.Driver.{
  Jack, Driver, Outcome, returned, exited, closed, connect_output, connect_input, activate,
  register_ports, open_driver,
}

module _ (j : Jack) where
  -- The server gave a client, both ports and the physical ports of both sides, and accepted the activation
  -- and the connection of the output. The capture port is connected if the server accepted that.
  pub record Connected (d : Driver) : Type 0 where
    pub client_id : ℕ
    pub input : ℕ
    pub output : ℕ
    pub capture : ℕ
    pub playback : ℕ
    pub captures : List ℕ
    pub playbacks : List ℕ
    pub opens : j.client_open ≡ some client_id
    pub no_failure : j.server_failed ≡ false
    pub has_input : j.input_register ≡ some input
    pub has_output : j.output_register ≡ some output
    pub activates : j.activate_fails ≡ false
    pub has_captures : j.capture_ports ≡ some (capture, captures)
    pub has_playbacks : j.playback_ports ≡ some (playback, playbacks)
    pub connects : j.output_connect_fails ≡ false
    pub state : d ≡ record {
      client = some client_id;
      input_port = some input;
      output_port = some output;
      has_callback = true;
      active = true;
      connections =
          (output, playback) ∷ (if j.input_connect_fails then [] else (capture, input) ∷ []);
    }

  -- What a call that returned true was given.
  connect_output-true :
      (out : ℕ) (d d' : Driver)
      → connect_output j out d ≡ (true, d')
      → (playback : ℕ) × (ps : List ℕ) × (j.playback_ports ≡ some (playback, ps))
        × (j.output_connect_fails ≡ false)
        × (d' ≡ record d { connections = (out, playback) ∷ d.connections })
  unfolding connect_output
  connect_output-true out d d' e = elim (Option-cases j.playback_ports) [
    | inl missing ↦
        let same : connect_output j out d ≡ (false, d) = rw (connect_output, missing) refl in
        let wrong : false ≡ true = ap (λ (r : Bool × Driver). r.0) (sym same ∙ e) in cc
    | inr ((playback, ps), there) ↦ elim (Bool-cases j.output_connect_fails) [
      | inl fails ↦
          let same : connect_output j out d ≡ (false, d) = rw (connect_output, there, fails) refl in
          let wrong : false ≡ true = ap (λ (r : Bool × Driver). r.0) (sym same ∙ e) in cc
      | inr works ↦
          let same : connect_output j out d
              ≡ (true, record d { connections = (out, playback) ∷ d.connections }) =
            rw (connect_output, there, works) refl in
          (playback, ps, there, works, ap (λ (r : Bool × Driver). r.1) (sym e ∙ same))
    ]
  ]

  abbrev heard : ℕ → ℕ → Driver → Driver
  heard inp capture d =
      if j.input_connect_fails then d else record d { connections = (capture, inp) ∷ d.connections }

  connect_input-true :
      (inp out : ℕ) (d d' : Driver)
      → connect_input j inp out d ≡ (true, d')
      → (capture : ℕ) × (cs : List ℕ) × (j.capture_ports ≡ some (capture, cs))
        × (connect_output j out (heard inp capture d) ≡ (true, d'))
  unfolding connect_input
  connect_input-true inp out d d' e = elim (Option-cases j.capture_ports) [
    | inl missing ↦
        let same : connect_input j inp out d ≡ (false, d) = rw (connect_input, missing) refl in
        let wrong : false ≡ true = ap (λ (r : Bool × Driver). r.0) (sym same ∙ e) in cc
    | inr ((capture, cs), there) ↦
        let same : connect_input j inp out d ≡ connect_output j out (heard inp capture d) =
          rw (connect_input, there) refl in
        (capture, cs, there, sym same ∙ e)
  ]

  activate-true :
      (inp out : ℕ) (d d' : Driver)
      → activate j inp out d ≡ (true, d')
      → (j.activate_fails ≡ false)
        × (connect_input j inp out (record d { active = true }) ≡ (true, d'))
  unfolding activate
  activate-true inp out d d' e = elim (Bool-cases j.activate_fails) [
    | inl fails ↦
        let same : activate j inp out d ≡ (false, d) = rw fails refl in
        let wrong : false ≡ true = ap (λ (r : Bool × Driver). r.0) (sym same ∙ e) in cc
    | inr works ↦
        let same : activate j inp out d ≡ connect_input j inp out (record d { active = true }) =
          rw works refl in
        (works, sym same ∙ e)
  ]

  abbrev ready : ℕ → Driver
  ready c = record closed { client = some c; has_callback = true }

  abbrev registered : ℕ → ℕ → ℕ → Driver
  registered c inp out = record (ready c) { input_port = some inp; output_port = some out }

  abbrev state_of : Outcome → Driver
  state_of (returned _ d) = d
  state_of exited = closed

  abbrev success : Outcome → Bool
  success (returned b _) = b
  success exited = false

  register_ports-true :
      (c : ℕ) (d : Driver)
      → register_ports j (ready c) ≡ returned true d
      → (inp : ℕ) × (out : ℕ) × (j.input_register ≡ some inp)
        × (j.output_register ≡ some out)
        × (activate j inp out (registered c inp out) ≡ (true, d))
  unfolding register_ports
  register_ports-true c d e = elim (Option-cases j.input_register) [
    | inl missing ↦
        let same : register_ports j (ready c) ≡ exited = rw (register_ports, missing) refl in
        let wrong : false ≡ true = ap success (sym same ∙ e) in cc
    | inr (inp, there) ↦ elim (Option-cases j.output_register) [
      | inl missing ↦
          let same : register_ports j (ready c) ≡ exited =
            rw (register_ports, there, missing) refl in
          let wrong : false ≡ true = ap success (sym same ∙ e) in cc
      | inr (out, found) ↦
          let result = activate j inp out (registered c inp out) in
          let same : register_ports j (ready c) ≡ returned result.0 result.1 =
            rw (register_ports, there, found) refl in
          let both : returned result.0 result.1 ≡ returned true d = sym same ∙ e in
          (inp, out, there, found, λ i. (success (both i), state_of (both i)))
    ]
  ]

  -- The driver once the connection of the input was tried.
  abbrev listening : ℕ → ℕ → ℕ → ℕ → Driver
  listening c inp out capture = record {
    client = some c;
    input_port = some inp;
    output_port = some out;
    has_callback = true;
    active = true;
    connections = if j.input_connect_fails then [] else (capture, inp) ∷ [];
  }

  heard-listening :
      (c inp out capture : ℕ)
      → heard inp capture (record (registered c inp out) { active = true })
        ≡ listening c inp out capture
  heard-listening c inp out capture = elim (Bool-cases j.input_connect_fails) [
    | inl fails ↦ rw fails refl
    | inr works ↦ rw works refl
  ]

  joined :
      (c inp out capture : ℕ) (cs : List ℕ) (d : Driver)
      → j.client_open ≡ some c
      → j.server_failed ≡ false
      → j.input_register ≡ some inp
      → j.output_register ≡ some out
      → j.activate_fails ≡ false
      → j.capture_ports ≡ some (capture, cs)
      → connect_output j out (listening c inp out capture) ≡ (true, d)
      → Connected d
  joined c inp out capture cs d ec ef ei eo ea ecs e =
      let (playback, ps, eps, joins, shape) =
        connect_output-true out (listening c inp out capture) d e in
      record {
        client_id = c;
        input = inp;
        output = out;
        capture = capture;
        playback = playback;
        captures = cs;
        playbacks = ps;
        opens = ec;
        no_failure = ef;
        has_input = ei;
        has_output = eo;
        activates = ea;
        has_captures = ecs;
        has_playbacks = eps;
        connects = joins;
        state = shape;
      }

  opened_with :
      (c : ℕ) (d : Driver)
      → j.client_open ≡ some c
      → j.server_failed ≡ false
      → register_ports j (ready c) ≡ returned true d
      → Connected d
  opened_with c d ec ef e =
      let (inp, out, ei, eo, runs) = register_ports-true c d e in
      let (ea, tries) = activate-true inp out (registered c inp out) d runs in
      let (capture, cs, ecs, rest) =
        connect_input-true inp out (record (registered c inp out) { active = true }) d tries in
      joined c inp out capture cs d ec ef ei eo ea ecs
        (subst (λ x. connect_output j out x ≡ (true, d)) (heard-listening c inp out capture) rest)

  open_driver-true : (d : Driver) → open_driver j closed ≡ returned true d → Connected d
  unfolding open_driver
  open_driver-true d e = elim (Option-cases j.client_open) [
    | inl missing ↦
        let same : open_driver j closed ≡ returned false closed = rw (open_driver, missing) refl in
        let wrong : false ≡ true = ap success (sym same ∙ e) in cc
    | inr (c, there) ↦ elim (Bool-cases j.server_failed) [
      | inr works ↦
          let same : open_driver j closed ≡ register_ports j (ready c) =
            rw (open_driver, there, works) refl in
          opened_with c d there works (sym same ∙ e)
      | inl fails ↦
          let same : success (open_driver j closed) ≡ false = rw (open_driver, there, fails) refl in
          let wrong : false ≡ true = sym same ∙ ap success e in cc
    ]
  ]

  Connected-open_driver : (d : Driver) → Connected d → open_driver j closed ≡ returned true d
  unfolding open_driver register_ports activate connect_input connect_output
  Connected-open_driver d w = elim (Bool-cases j.input_connect_fails) [
    | inl fails ↦
        rw
          (
            w.state, open_driver, register_ports, connect_input, connect_output, w.opens,
            w.no_failure, w.has_input, w.has_output, w.activates, w.has_captures, w.has_playbacks,
            w.connects, fails,
          )
          refl
    | inr works ↦
        rw
          (
            w.state, open_driver, register_ports, connect_input, connect_output, w.opens,
            w.no_failure, w.has_input, w.has_output, w.activates, w.has_captures, w.has_playbacks,
            w.connects, works,
          )
          refl
  ]

-- `open` returns true exactly if the server gave a client and did not fail, registered both ports,
-- accepted the activation, has physical ports of both sides and connected the output; and the
-- driver is then the one with these ports, its callback, the output connected to the first playback
-- port, and the first capture port connected to the input if, and only if, the server accepted that
-- connection too.
pub open_driver-Connected :
    (j : Jack) (d : Driver) → (open_driver j closed ≡ returned true d) ↔ Connected j d
open_driver-Connected j d = (open_driver-true j d, Connected-open_driver j d)
