-- ===== src/Library/Valid.antt =====
-- SharedLibrary.cpp: what `plugin_is_valid` decides.
use mathlib.Core.Path.{subst}
use amprack_6_pc.Base.{
  ℕ, ◌+◌, ◌≤◌, ◌<◌, ◌≡◌, refl, arith, true, false, not, ◌&&◌, ◌||◌, List, [], ◌∷◌, ◌↔◌, Bool,
  Bool-cases, inl, inr,
}
use amprack_6_pc.Control.{has}
use amprack_6_pc.Plugin.Ladspa.{port_audio, port_input}
use amprack_6_pc.Library.{count_port, count_ports, plugin_is_valid}

-- Some port passes a test.
abbrev pub some_port : (ℕ → Bool) → List ℕ → Bool
some_port test [] = false
some_port test (p ∷ ps) = test p || some_port test ps

abbrev pub is_audio_input : ℕ → Bool
is_audio_input p = has p port_audio && has p port_input

abbrev pub is_audio_output : ℕ → Bool
is_audio_output p = has p port_audio && not (has p port_input)

-- The counts only grow, and one that grows has found a port.
record Counted (ps : List ℕ) (n r : ℕ × ℕ) : Type 0 where
  inputs : n.0 ≤ r.0
  outputs : n.1 ≤ r.1
  input_found : (some_port is_audio_input ps ≡ true) ↔ (n.0 < r.0)
  output_found : (some_port is_audio_output ps ≡ true) ↔ (n.1 < r.1)

count_ports-Counted : (ps : List ℕ) (n : ℕ × ℕ) → Counted ps n (count_ports ps n)
unfolding count_ports
count_ports-Counted [] n = record {
  inputs = omega arith;
  outputs = omega arith;
  input_found = (λ e. cc, λ h. absurd (omega arith));
  output_found = (λ e. cc, λ h. absurd (omega arith));
}
count_ports-Counted (p ∷ ps) n = elim (Bool-cases (has p port_audio)) [
  | inr quiet ↦
      let same : n ≡ count_port p n = rw (count_port, quiet) refl in
      let rest = count_ports-Counted ps n in
      subst (λ m. Counted (p ∷ ps) n (count_ports ps m)) same
        (record {
          inputs = rest.inputs;
          outputs = rest.outputs;
          input_found = rw quiet rest.input_found;
          output_found = rw quiet rest.output_found;
        })
  | inl audio ↦ elim (Bool-cases (has p port_input)) [
    | inl input ↦
        let one : (n.0 + 1, n.1) ≡ count_port p n = rw (count_port, audio, input) refl in
        let rest = count_ports-Counted ps (n.0 + 1, n.1) in
        subst (λ m. Counted (p ∷ ps) n (count_ports ps m)) one
          (record {
            inputs = omega (arith, rest.inputs);
            outputs = rest.outputs;
            input_found = rw (audio, input) (λ _. omega (arith, rest.inputs), λ _. refl);
            output_found = rw (audio, input) rest.output_found;
          })
    | inr output ↦
        let one : (n.0, n.1 + 1) ≡ count_port p n = rw (count_port, audio, output) refl in
        let rest = count_ports-Counted ps (n.0, n.1 + 1) in
        subst (λ m. Counted (p ∷ ps) n (count_ports ps m)) one
          (record {
            inputs = rest.inputs;
            outputs = omega (arith, rest.outputs);
            input_found = rw (audio, output) rest.input_found;
            output_found = rw (audio, output) (λ _. omega (arith, rest.outputs), λ _. refl);
          })
  ]
]

-- A plugin can stand in the rack exactly if it has an audio input and an audio port that is none.
pub plugin_is_valid-ports :
    (ps : List ℕ)
    → (plugin_is_valid ps ≡ true)
      ↔ ((some_port is_audio_input ps ≡ true) × (some_port is_audio_output ps ≡ true))
unfolding plugin_is_valid
plugin_is_valid-ports ps =
    let v = count_ports-Counted ps (0, 0) in
    (
      λ e. (v.input_found.1 (ground arith), v.output_found.1 (ground arith)),
      λ e. ground (arith, v.input_found.0 e.0, v.output_found.0 e.1),
    )
