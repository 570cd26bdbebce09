-- ===== src/Plugin/Ports/Found.antt =====
-- Plugin.cpp: what a loop over the ports of a plugin finds, by what its rounds change.
use amprack_6_pc.Base.{
  ℕ, ◌+◌, ◌≡◌, refl, sym, ap, ◌∙◌, Bool, List, [], ◌∷◌, ◌++◌, map, get_elem?, append-nil,
}
use amprack_6_pc.Plugin.Ports.{Target, Scan, no_ports, scan_all}
use amprack_6_pc.Plugin.Ports.Rounds.{fill, fill-if, append-if, fill-two, marked, Round}

-- Every port of a list is fine.
abbrev pub AllFine : {P : Type 0} → (P → Type 0) → List P → Type 0
AllFine Fine [] = Unit
AllFine Fine (p ∷ ps) = Fine p × AllFine Fine ps

pub all_fine :
    {P : Type 0} (Fine : P → Type 0) → ((p : P) → Fine p) → (ps : List P) → AllFine Fine ps
all_fine Fine always [] = tt
all_fine Fine always (p ∷ ps) = (always p, all_fine Fine always ps)

module _ {P C : Type 0} (at : C → ℕ) (Keeps : List (ℕ × Target) → List C → Type 0)
    (number : ℕ → P → ℕ) (is_in is_out known has_own : P → Bool) where
  -- What the whole loop changes.
  pub record Found (i : ℕ) (ps : List P) (s r : Scan C) : Type 0 where
    pub inputs : r.inputs ≡ fill (marked number is_in i ps) s.inputs
    pub outputs : r.outputs ≡ fill (marked number is_out i ps) s.outputs
    pub connected :
        map (λ c. c.0) r.connections ≡ map (λ c. c.0) s.connections ++ marked number known i ps
    pub controls : map at r.controls ≡ map at s.controls ++ marked number has_own i ps
    pub owned : Keeps s.connections s.controls → Keeps r.connections r.controls

  module _ (Fine : P → Type 0) (step : ℕ → P → Scan C → Scan C)
      (rounds : (i : ℕ) (p : P) (s : Scan C)
        → Fine p
        → Round at Keeps
            (is_in p)
            (is_out p)
            (known p)
            (has_own p)
            (number i p)
            s
            (step i p s)) where
    scan_all-Found :
        (ps : List P) (i : ℕ) (s : Scan C) → AllFine Fine ps → Found i ps s (scan_all step i ps s)
    unfolding scan_all
    scan_all-Found [] i s fine = record {
      inputs = refl;
      outputs = refl;
      connected = sym (append-nil (map (λ c. c.0) s.connections));
      controls = sym (append-nil (map at s.controls));
      owned = λ v. v;
    }
    scan_all-Found (p ∷ ps) i s fine =
        let one = rounds i p s fine.0 in
        let rest = scan_all-Found ps (i + 1) (step i p s) fine.1 in
        record {
          inputs =
              rest.inputs
              ∙ ap (fill (marked number is_in (i + 1) ps)) one.inputs
              ∙ fill-if (is_in p) (number i p) (marked number is_in (i + 1) ps) s.inputs;
          outputs =
              rest.outputs
              ∙ ap (fill (marked number is_out (i + 1) ps)) one.outputs
              ∙ fill-if (is_out p) (number i p) (marked number is_out (i + 1) ps) s.outputs;
          connected =
              rest.connected
              ∙ ap (λ l. l ++ marked number known (i + 1) ps) one.connected
              ∙ append-if (known p) (number i p) (map (λ c. c.0) s.connections)
                  (marked number known (i + 1) ps);
          controls =
              rest.controls
              ∙ ap (λ l. l ++ marked number has_own (i + 1) ps) one.controls
              ∙ append-if (has_own p) (number i p) (map at s.controls)
                  (marked number has_own (i + 1) ps);
          owned = λ v. rest.owned (one.owned v);
        }

    -- The whole loop, from nothing.
    pub scan_all-finds :
        (ps : List P)
        → AllFine Fine ps
        → Keeps [] []
        → ((scan_all step 0 ps no_ports).inputs
            ≡ (get_elem? (marked number is_in 0 ps) 0, get_elem? (marked number is_in 0 ps) 1))
          × ((scan_all step 0 ps no_ports).outputs
              ≡ (get_elem? (marked number is_out 0 ps) 0, get_elem? (marked number is_out 0 ps) 1))
          × (map (λ c. c.0) (scan_all step 0 ps no_ports).connections ≡ marked number known 0 ps)
          × (map at (scan_all step 0 ps no_ports).controls ≡ marked number has_own 0 ps)
          × Keeps (scan_all step 0 ps no_ports).connections (scan_all step 0 ps no_ports).controls
    scan_all-finds ps fine start =
        let all = scan_all-Found ps 0 no_ports fine in
        (
          all.inputs ∙ fill-two (marked number is_in 0 ps),
          all.outputs ∙ fill-two (marked number is_out 0 ps),
          all.connected,
          all.controls,
          all.owned start,
        )
