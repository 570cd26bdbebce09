-- ===== src/Plugin/Ports/Rounds.antt =====
-- Plugin.cpp: what one round of a loop over the ports of a plugin changes, whatever the kind of plugin.
use mathlib.Core.List.{map-append}
use amprack_6_pc.Base.{
  ℕ, ◌+◌, ◌≡◌, refl, sym, ap, ◌∙◌, Bool, true, false, Option, none, some, List, [], ◌∷◌, ◌++◌, map,
  arith, length, get_elem?, append_assoc, append-nil, if◌then◌else◌,
}
use amprack_6_pc.Plugin.Ports.{
  Target, dummy, file_port, notify_port, cell, sequence, Scan, first_free, add_control, connect,
  add_input, add_output,
}

abbrev pub one_if : Bool → ℕ → List ℕ
one_if b i = if b then i ∷ [] else []

-- The connections that lead to a control: port and number of the control.
abbrev pub own : List (ℕ × Target) → List (ℕ × ℕ)
own [] = []
own ((i, dummy) ∷ cs) = own cs
own ((i, file_port) ∷ cs) = own cs
own ((i, notify_port) ∷ cs) = own cs
own ((i, cell k) ∷ cs) = (i, k) ∷ own cs
own ((i, sequence k) ∷ cs) = (i, k) ∷ own cs

pub own-append : (xs ys : List (ℕ × Target)) → own (xs ++ ys) ≡ own xs ++ own ys
own-append [] ys = refl
own-append ((i, dummy) ∷ xs) ys = own-append xs ys
own-append ((i, file_port) ∷ xs) ys = own-append xs ys
own-append ((i, notify_port) ∷ xs) ys = own-append xs ys
own-append ((i, cell k) ∷ xs) ys = ap (◌∷◌ (i, k)) (own-append xs ys)
own-append ((i, sequence k) ∷ xs) ys = ap (◌∷◌ (i, k)) (own-append xs ys)

abbrev pub fill : List ℕ → Option ℕ × Option ℕ → Option ℕ × Option ℕ
fill [] q = q
fill (x ∷ xs) q = fill xs (first_free x q)

pub fill-full : (xs : List ℕ) (a b : ℕ) → fill xs (some a, some b) ≡ (some a, some b)
unfolding first_free
fill-full [] a b = refl
fill-full (x ∷ xs) a b = fill-full xs a b

-- The first two of the indices are kept.
pub fill-two : (xs : List ℕ) → fill xs (none, none) ≡ (get_elem? xs 0, get_elem? xs 1)
unfolding first_free
fill-two [] = refl
fill-two (x ∷ []) = refl
fill-two (x ∷ y ∷ xs) = fill-full xs x y

pub fill-if :
    (b : Bool) (i : ℕ) (xs : List ℕ) (q : Option ℕ × Option ℕ)
    → fill xs (if b then first_free i q else q) ≡ fill (if b then i ∷ xs else xs) q
fill-if true i xs q = refl
fill-if false i xs q = refl

pub append-if :
    (b : Bool) (i : ℕ) (xs ys : List ℕ)
    → (xs ++ one_if b i) ++ ys ≡ xs ++ (if b then i ∷ ys else ys)
append-if true i xs ys = append_assoc xs (i ∷ []) ys
append-if false i xs ys = append_assoc xs [] ys

module _ {P : Type 0} where
  -- The numbers of the ports that pass a test; a port's number comes from it and from its place.
  abbrev pub marked : (ℕ → P → ℕ) → (P → Bool) → ℕ → List P → List ℕ
  marked number test i [] = []
  marked number test i (p ∷ ps) =
      let rest = marked number test (i + 1) ps in if test p then number i p ∷ rest else rest

  -- The indices, from `i` on, of the ports that pass a test.
  abbrev pub indices : (P → Bool) → ℕ → List P → List ℕ
  indices test i ps = marked (λ j _. j) test i ps

module _ {C : Type 0} (at : C → ℕ) where
  -- The ports of the controls, and the controls' numbers, from `k` on.
  abbrev pub numbered : ℕ → List C → List (ℕ × ℕ)
  numbered k [] = []
  numbered k (c ∷ cs) = (at c, k) ∷ numbered (k + 1) cs

  numbered-snoc :
      (k : ℕ) (cs : List C) (c : C)
      → numbered k (cs ++ c ∷ []) ≡ numbered k cs ++ (at c, k + length cs) ∷ []
  numbered-snoc k [] c = ap (λ (t : ℕ). (at c, t) ∷ []) (omega arith)
  numbered-snoc k (d ∷ cs) c = ap (◌∷◌ (at d, k)) (
      numbered-snoc (k + 1) cs c
      ∙ ap (λ (t : ℕ). numbered (k + 1) cs ++ (at c, t) ∷ []) (omega arith))

  -- Every connection to a control is that of the control's own port, and the controls have one each.
  abbrev pub Owned : List (ℕ × Target) → List C → Type 0
  Owned cn cs = own cn ≡ numbered 0 cs

  pub dummy-Owned :
      (i : ℕ) (cn : List (ℕ × Target)) (cs : List C)
      → Owned cn cs
      → Owned (cn ++ (i, dummy) ∷ []) cs
  dummy-Owned i cn cs v = own-append cn ((i, dummy) ∷ []) ∙ append-nil (own cn) ∙ v

  pub control-Owned :
      (i : ℕ) (cn : List (ℕ × Target)) (cs : List C) (c : C) (t : Target)
      → at c ≡ i
      → own ((i, t) ∷ []) ≡ (i, length cs) ∷ []
      → Owned cn cs
      → Owned (cn ++ (i, t) ∷ []) (cs ++ c ∷ [])
  control-Owned i cn cs c t at_i own_t v =
      own-append cn ((i, t) ∷ [])
      ∙ ap (◌++◌ (own cn)) own_t
      ∙ ap (λ l. l ++ (i, length cs) ∷ []) v
      ∙ ap (λ (n : ℕ). numbered 0 cs ++ (i, n) ∷ []) {y = 0 + length cs} (omega arith)
      ∙ ap (λ (n : ℕ). numbered 0 cs ++ (n, 0 + length cs) ∷ []) (sym at_i)
      ∙ sym (numbered-snoc 0 cs c)

-- Rounds that keep a relation between the connections and the controls.
module _ {C : Type 0} (at : C → ℕ) (Keeps : List (ℕ × Target) → List C → Type 0) where
  -- What one round changes, by the tests `is_in`, `is_out`, `known` and `has_own` of its port.
  pub record Round (is_in is_out known has_own : Bool) (i : ℕ) (s r : Scan C) : Type 0 where
    pub inputs : r.inputs ≡ (if is_in then first_free i s.inputs else s.inputs)
    pub outputs : r.outputs ≡ (if is_out then first_free i s.outputs else s.outputs)
    pub connected : map (λ c. c.0) r.connections ≡ map (λ c. c.0) s.connections ++ one_if known i
    pub controls : map at r.controls ≡ map at s.controls ++ one_if has_own i
    pub owned : Keeps s.connections s.controls → Keeps r.connections r.controls

  pushed :
      (i : ℕ) (s : Scan C) (c : C)
      → at c ≡ i
      → map at (s.controls ++ c ∷ []) ≡ map at s.controls ++ i ∷ []
  pushed i s c at_i =
      map-append at s.controls (c ∷ []) ∙ ap (λ (n : ℕ). map at s.controls ++ n ∷ []) at_i

  -- The branches of the loops: an audio port, with a connection or without one; a port that only
  -- is connected; a port with a control of its own; a port that is left alone.
  pub Round-input : (i : ℕ) (s : Scan C) → Round true false false false i s (add_input i s)
  Round-input i s = record {
    inputs = refl;
    outputs = refl;
    connected = sym (append-nil (map (λ c. c.0) s.connections));
    controls = sym (append-nil (map at s.controls));
    owned = λ v. v;
  }

  pub Round-output : (i : ℕ) (s : Scan C) → Round false true false false i s (add_output i s)
  Round-output i s = record {
    inputs = refl;
    outputs = refl;
    connected = sym (append-nil (map (λ c. c.0) s.connections));
    controls = sym (append-nil (map at s.controls));
    owned = λ v. v;
  }

  pub Round-nothing : (i : ℕ) (s : Scan C) → Round false false false false i s s
  Round-nothing i s = record {
    inputs = refl;
    outputs = refl;
    connected = sym (append-nil (map (λ c. c.0) s.connections));
    controls = sym (append-nil (map at s.controls));
    owned = λ v. v;
  }

  -- A connection to something else than a control, after any of these.
  pub Round-connect :
      {is_in is_out : Bool} (i : ℕ) (t : Target) (s r : Scan C)
      → ((cn : List (ℕ × Target)) (cs : List C) → Keeps cn cs → Keeps (cn ++ (i, t) ∷ []) cs)
      → Round is_in is_out false false i s r
      → Round is_in is_out true false i s (connect i t r)
  Round-connect i t s r keep v = record {
    inputs = v.inputs;
    outputs = v.outputs;
    connected =
        map-append (λ c. c.0) r.connections ((i, t) ∷ [])
        ∙ ap (λ l. l ++ i ∷ []) (v.connected ∙ append-nil (map (λ c. c.0) s.connections));
    controls = v.controls;
    owned = λ w. keep r.connections r.controls (v.owned w);
  }

  pub Round-control :
      (i : ℕ) (s : Scan C) (c : C) (target : ℕ → Target)
      → at c ≡ i
      → (Keeps s.connections s.controls
          → Keeps (s.connections ++ (i, target (length s.controls)) ∷ []) (s.controls ++ c ∷ []))
      → Round false false true true i s (add_control i c target s)
  Round-control i s c target at_i keep = record {
    inputs = refl;
    outputs = refl;
    connected = map-append (λ c. c.0) s.connections ((i, target (length s.controls)) ∷ []);
    controls = pushed i s c at_i;
    owned = keep;
  }
