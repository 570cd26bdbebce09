-- ===== src/Rack/Adding/Loaded.antt =====
-- rack.cc: what the rack holds after plugins were added by name.
use Prim.Native.String.{String}
use amprack_6_pc.Base.{
  ℕ, ◌+◌, ◌-◌, ◌≤◌, ◌≡◌, ◌⊎◌, refl, sym, ap, ◌∙◌, arith, Bool, true, false, none, some, List, [],
  ◌∷◌, ◌++◌, map, length, length-append, append_assoc, append-nil, Option-cases, ◌>>=◌, inl, inr,
}
use amprack_6_pc.Plugin.{Plugin}
use amprack_6_pc.Engine.{Engine, add_plugin, clear, set_bypass}
use amprack_6_pc.Engine.Build.{switched_on, plugin_wiring, chain, build_plugin_chain-entries}
use amprack_6_pc.Rack.{Rack, ℤ, pos}
use amprack_6_pc.Rack.Adding.{
  Entry, Catalogue, find_entry, try_table, add_plugin_by_name, made, found,
}

-- The numbers from `i` on, one for each plugin.
pub numbers : {A : Type 0} → ℕ → List (Plugin A) → List ℤ
numbers i [] = []
numbers i (p ∷ ps) = pos i ∷ numbers (i + 1) ps

numbers-snoc :
    {A : Type 0} (i : ℕ) (ps : List (Plugin A)) (p : Plugin A)
    → numbers i (ps ++ p ∷ []) ≡ numbers i ps ++ pos (i + length ps) ∷ []
unfolding numbers
numbers-snoc i [] p = ap (λ (n : ℕ). pos n ∷ []) (omega arith)
numbers-snoc i (q ∷ ps) p =
    ap (◌∷◌ (pos i))
      (numbers-snoc (i + 1) ps p ∙ ap (λ (n : ℕ). numbers (i + 1) ps ++ pos n ∷ []) (omega arith))

-- The engine has these plugins, and the audio thread goes through those that are switched on.
pub record Runs {A : Type 0} (e : Engine A) (ps : List (Plugin A)) : Type 0 where
  pub plugins : e.active_plugins ≡ ps
  pub long : length e.processor.slots ≡ 10
  pub entries : chain e.processor ≡ map plugin_wiring (switched_on ps)

add_plugin-Runs :
    {A : Type 0} (p : Plugin A) (e : Engine A) (ps : List (Plugin A))
    → Runs e ps
    → length (switched_on (ps ++ p ∷ [])) ≤ 10
    → (e' : Engine A) × (add_plugin (some p) e ≡ some (true, e')) × Runs e' (ps ++ p ∷ [])
unfolding add_plugin
add_plugin-Runs p e ps h few =
    let e₁ = record (set_bypass true e) { active_plugins = e.active_plugins ++ p ∷ [] } in
    let all = ap (λ l. l ++ p ∷ []) h.plugins in
    let (e', run, entries, plugins, _, long, _) =
      build_plugin_chain-entries e₁ h.long
        (omega (arith, few, ap (λ l. length (switched_on l)) all)) in
    (
      set_bypass false e',
      rw run refl,
      record {
        plugins = plugins ∙ all;
        long = long;
        entries = entries ∙ ap (λ l. map plugin_wiring (switched_on l)) all;
      },
    )

-- Whether a name stands for a plugin.
abbrev pub is_some_plugin : {A : Type 0} → List (Plugin A) → Bool
is_some_plugin [] = false
is_some_plugin (p ∷ ps) = true

module _ {A : Type 0} (c : Catalogue A) where
  -- Where the table has no plugin of the name, nothing but `bypass` may change.
  try_table-misses :
      (xs : List Entry) (n : String) (e : Engine A) (ps : List (Plugin A))
      → Runs e ps
      → made c xs n ≡ none
      → (e' : Engine A) × (try_table c xs n e ≡ some (false, e')) × Runs e' ps
  unfolding try_table made add_plugin
  try_table-misses xs n e ps h none_made = elim (Option-cases (find_entry xs n)) [
    | inl a ↦ (e, rw (try_table, a) refl, h)
    | inr (x, a) ↦
        let missing : c.load x.library x.index ≡ none =
          sym (ap (λ o. o >>= λ y. c.load y.library y.index) a) ∙ none_made in
        (
          set_bypass false (set_bypass true e),
          rw (try_table, a, missing) refl,
          record { plugins = h.plugins; long = h.long; entries = h.entries },
        )
  ]

  try_table-hits :
      (xs : List Entry) (n : String) (p : Plugin A) (e : Engine A) (ps : List (Plugin A))
      → Runs e ps
      → made c xs n ≡ some p
      → length (switched_on (ps ++ p ∷ [])) ≤ 10
      → (e' : Engine A) × (try_table c xs n e ≡ some (true, e')) × Runs e' (ps ++ p ∷ [])
  unfolding try_table made
  try_table-hits xs n p e ps h is_made few = elim (Option-cases (find_entry xs n)) [
    | inl a ↦ cc (sym (ap (λ o. o >>= λ y. c.load y.library y.index) a) ∙ is_made)
    | inr (x, a) ↦
        let loads : c.load x.library x.index ≡ some p =
          sym (ap (λ o. o >>= λ y. c.load y.library y.index) a) ∙ is_made in
        let (e', run, v) = add_plugin-Runs p e ps h few in (e', rw (try_table, a, loads) run, v)
  ]

  -- A rack whose widgets, after those that it had, have the indices of their plugins.
  pub record Shows (old : List ℤ) (r : Rack A) (ps : List (Plugin A)) : Type 0 where
    pub runs : Runs r.engine ps
    pub places : r.uiv ≡ old ++ numbers 0 ps

  -- What `addPluginByName` appends.
  grown :
      (old : List ℤ) (r : Rack A) (ps : List (Plugin A)) (p : Plugin A) (e : Engine A)
      → Shows old r ps
      → Runs e (ps ++ p ∷ [])
      → Shows old
          (record { engine = e; uiv = r.uiv ++ pos (length e.active_plugins - 1) ∷ [] })
          (ps ++ p ∷ [])
  grown old r ps p e h v =
      let last : length e.active_plugins - 1 ≡ 0 + length ps =
        omega (arith, ap length v.plugins, length-append ps (p ∷ [])) in
      record {
        runs = v;
        places =
            rw (last, h.places) (append_assoc old (numbers 0 ps) (pos (0 + length ps) ∷ []))
            ∙ ap (◌++◌ old) (sym (numbers-snoc 0 ps p));
      }

  pub add_plugin_by_name-Shows :
      (old : List ℤ) (n : String) (r : Rack A) (ps : List (Plugin A))
      → Shows old r ps
      → length (switched_on (ps ++ found c n)) ≤ 10
      → (ok : Bool) × (r' : Rack A) × (add_plugin_by_name c n r ≡ some (ok, r'))
        × Shows old r' (ps ++ found c n)
        × (ok ≡ is_some_plugin (found c n))
  unfolding add_plugin_by_name found
  add_plugin_by_name-Shows old n r ps h few = elim (Option-cases (made c c.lv2_json n)) [
    | inr (p, a) ↦
        let here : found c n ≡ p ∷ [] = rw (found, a) refl in
        let (e, run, v) =
          try_table-hits c.lv2_json n p r.engine ps h.runs a
            (omega (arith, few, ap (λ l. length (switched_on (ps ++ l))) here)) in
        (
          true,
          record { engine = e; uiv = r.uiv ++ pos (length e.active_plugins - 1) ∷ [] },
          rw run refl,
          rw here (grown old r ps p e h v),
          rw here refl,
        )
    | inl a ↦
        let (e, run, v) = try_table-misses c.lv2_json n r.engine ps h.runs a in
        elim (Option-cases (made c c.ladspa_json n)) [
          | inr (p, b) ↦
              let here : found c n ≡ p ∷ [] = rw (found, a, b) refl in
              let (e', run', v') =
                try_table-hits c.ladspa_json n p e ps v b
                  (omega (arith, few, ap (λ l. length (switched_on (ps ++ l))) here)) in
              (
                true,
                record { engine = e'; uiv = r.uiv ++ pos (length e'.active_plugins - 1) ∷ [] },
                rw (run, run') refl,
                rw here (grown old r ps p e' h v'),
                rw here refl,
              )
          | inl b ↦
              let here : found c n ≡ [] = rw (found, a, b) refl in
              let (e', run', v') = try_table-misses c.ladspa_json n e ps v b in
              (
                false,
                record r { engine = e' },
                rw (run, run') refl,
                rw (here, append-nil ps) (record { runs = v'; places = h.places }),
                rw here refl,
              )
        ]
  ]

  -- A name stands for one plugin, or for none.
  pub found-cases : (n : String) → (found c n ≡ []) ⊎ ((q : Plugin A) × (found c n ≡ q ∷ []))
  unfolding found
  found-cases n = elim (Option-cases (made c c.lv2_json n)) [
    | inr (p, a) ↦ inr (p, rw (found, a) refl)
    | inl a ↦ elim (Option-cases (made c c.ladspa_json n)) [
      | inr (p, b) ↦ inr (p, rw (found, a, b) refl)
      | inl b ↦ inl (rw (found, a, b) refl)
    ]
  ]

  -- A cleared rack, whose widgets stay listed.
  pub clear-Shows :
      (r : Rack A)
      → length r.engine.processor.slots ≡ 10
      → (e : Engine A) × (clear r.engine ≡ some e) × Shows r.uiv (record r { engine = e }) []
  unfolding clear numbers
  clear-Shows r long =
      let (e, run, entries, plugins, _, long', _) =
        build_plugin_chain-entries (record r.engine { active_plugins = [] }) long (omega arith) in
      (
        e,
        run,
        record {
          runs = record { plugins = plugins; long = long'; entries = entries };
          places = sym (append-nil r.uiv);
        },
      )
