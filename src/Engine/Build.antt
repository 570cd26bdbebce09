-- ===== src/Engine/Build.antt =====
-- engine.cc: what `buildPluginChain` leaves for the audio thread.
use mathlib.Core.List.{map-append}
use native.Mathlib.Decide.{dec_lt}
use amprack_6_pc.Base.{
  ◌+◌, ◌≤◌, ◌<◌, ◌≡◌, refl, sym, ap, ◌∙◌, true, false, inl, inr, Bool-cases, none, some, List, [],
  ◌∷◌, ◌++◌, map, arith, set, length, take, append_assoc, append-nil, take-set_snoc, if◌then◌else◌,
  drop-eq-cons, length-set, get_elem?-none,
}
use amprack_6_pc.Plugin.{Plugin}
use amprack_6_pc.Processor.{Processor}
use amprack_6_pc.Processor.Chain.{Wiring, wiring}
use amprack_6_pc.Engine.{
  Engine, store_plugin, add_to_chain, chain_round, build_from, build_plugin_chain,
}

module _ {A : Type 0} where
  -- The plugins that are switched on, in rack order.
  abbrev pub switched_on : List (Plugin A) → List (Plugin A)
  switched_on [] = []
  switched_on (p ∷ ps) = if p.active then p ∷ switched_on ps else switched_on ps

  abbrev pub plugin_wiring : Plugin A → Wiring
  plugin_wiring p = record {
    input_port = p.input_port;
    input_port2 = p.input_port2;
    output_port = p.output_port;
    output_port2 = p.output_port2;
    instance_ptr = p.instance_ptr;
  }

  -- The entries that the audio thread goes through.
  abbrev pub chain : Processor A → List Wiring
  chain proc = map wiring (take proc.active_plugins proc.slots)

  add_to_chain-total :
      (p : Plugin A) (proc : Processor A)
      → proc.active_plugins < length proc.slots
      → (proc' : Processor A) × (add_to_chain p proc ≡ some proc')
        × (proc'.active_plugins ≡ proc.active_plugins + 1)
        × (length proc'.slots ≡ length proc.slots)
        × (chain proc' ≡ chain proc ++ plugin_wiring p ∷ [])
        × (proc'.bypass ≡ proc.bypass)
  unfolding add_to_chain store_plugin
  add_to_chain-total p proc h =
      let (old, found, _) = drop-eq-cons proc.active_plugins proc.slots h in
      (
        record proc {
          slots = set proc.slots proc.active_plugins (store_plugin p old);
          active_plugins = proc.active_plugins + 1;
        },
        rw found refl,
        refl,
        length-set proc.slots proc.active_plugins (store_plugin p old),
        ap (map wiring) (take-set_snoc proc.active_plugins proc.slots (store_plugin p old) h)
            ∙ map-append wiring (take proc.active_plugins proc.slots) (store_plugin p old ∷ []),
        refl,
      )

  add_to_chain-full :
      (p : Plugin A) (proc : Processor A)
      → length proc.slots ≤ proc.active_plugins
      → add_to_chain p proc ≡ none
  unfolding add_to_chain
  add_to_chain-full p proc h = rw (get_elem?-none proc.slots proc.active_plugins h) refl

  chain_round-on :
      (p : Plugin A) (proc : Processor A)
      → p.active ≡ true
      → chain_round p proc ≡ add_to_chain p proc
  unfolding chain_round
  chain_round-on p proc e = ap (λ b. if b then add_to_chain p proc else some proc) e

  chain_round-off :
      (p : Plugin A) (proc : Processor A) → p.active ≡ false → chain_round p proc ≡ some proc
  unfolding chain_round
  chain_round-off p proc e = ap (λ b. if b then add_to_chain p proc else some proc) e

  pub switched_on-cons :
      (p : Plugin A) (ps : List (Plugin A))
      → p.active ≡ true
      → switched_on (p ∷ ps) ≡ p ∷ switched_on ps
  switched_on-cons p ps e = ap (λ b. if b then p ∷ switched_on ps else switched_on ps) e

  pub switched_on-skip :
      (p : Plugin A) (ps : List (Plugin A))
      → p.active ≡ false
      → switched_on (p ∷ ps) ≡ switched_on ps
  switched_on-skip p ps e = ap (λ b. if b then p ∷ switched_on ps else switched_on ps) e

  -- What a successful run of the loop leaves.
  pub record Built (ps : List (Plugin A)) (proc proc' : Processor A) : Type 0 where
    pub count : proc'.active_plugins ≡ proc.active_plugins + length (switched_on ps)
    pub size : length proc'.slots ≡ length proc.slots
    pub entries : chain proc' ≡ chain proc ++ map plugin_wiring (switched_on ps)
    pub same_bypass : proc'.bypass ≡ proc.bypass

  build_from-total :
      (ps : List (Plugin A)) (proc : Processor A)
      → proc.active_plugins + length (switched_on ps) ≤ length proc.slots
      → (proc' : Processor A) × (build_from ps proc ≡ some proc') × Built ps proc proc'
  unfolding build_from
  build_from-total [] proc h = (
    proc,
    refl,
    record {
      count = omega arith;
      size = refl;
      entries = sym (append-nil (chain proc));
      same_bypass = refl;
    },
  )
  build_from-total (p ∷ ps) proc h = elim (Bool-cases p.active) [
    | inl e ↦
        let on_eq = switched_on-cons p ps e in
        let (mid, step, c, s, w, b) = add_to_chain-total p proc (omega (arith, ap length on_eq)) in
        let (last, run, v) = build_from-total ps mid (omega (arith, c, s, ap length on_eq)) in
        (
          last,
          rw (chain_round-on p proc e, step) run,
          record {
            count = omega (arith, v.count, c, ap length on_eq);
            size = v.size ∙ s;
            entries =
                v.entries
                ∙ ap (λ l. l ++ map plugin_wiring (switched_on ps)) w
                ∙ append_assoc (chain proc) (plugin_wiring p ∷ [])
                    (map plugin_wiring (switched_on ps))
                ∙ ap (λ l. chain proc ++ map plugin_wiring l) (sym on_eq);
            same_bypass = v.same_bypass ∙ b;
          },
        )
    | inr e ↦
        let off_eq = switched_on-skip p ps e in
        let (last, run, v) = build_from-total ps proc (omega (arith, ap length off_eq)) in
        (
          last,
          rw (chain_round-off p proc e) run,
          record {
            count = omega (arith, v.count, ap length off_eq);
            size = v.size;
            entries = v.entries ∙ ap (λ l. chain proc ++ map plugin_wiring l) (sym off_eq);
            same_bypass = v.same_bypass;
          },
        )
  ]

  -- One active plugin more than the arrays have room for, and the loop writes past their end.
  build_from-overflows :
      (ps : List (Plugin A)) (proc : Processor A)
      → length proc.slots < proc.active_plugins + length (switched_on ps)
      → proc.active_plugins ≤ length proc.slots
      → build_from ps proc ≡ none
  unfolding build_from
  build_from-overflows [] proc h k = absurd (omega arith)
  build_from-overflows (p ∷ ps) proc h k = elim (Bool-cases p.active) [
    | inl e ↦ elim (dec_lt proc.active_plugins (length proc.slots)) [
      | yes room ↦
          let (mid, step, c, s, _, _) = add_to_chain-total p proc room in
          rw (chain_round-on p proc e, step)
            (build_from-overflows ps mid (omega (arith, c, s, ap length (switched_on-cons p ps e)))
              (omega (arith, c, s)))
      | no full ↦ rw (chain_round-on p proc e, add_to_chain-full p proc (omega arith)) refl
    ]
    | inr e ↦
        rw (chain_round-off p proc e)
          (build_from-overflows ps proc (omega (arith, ap length (switched_on-skip p ps e))) k)
  ]

  -- With at most ten plugins switched on, `buildPluginChain` succeeds, and the audio thread's
  -- entries are exactly those plugins, in rack order; the rack and `bypass` stay.
  pub build_plugin_chain-entries :
      (e : Engine A)
      → length e.processor.slots ≡ 10
      → length (switched_on e.active_plugins) ≤ 10
      → (e' : Engine A) × (build_plugin_chain e ≡ some e')
        × (chain e'.processor ≡ map plugin_wiring (switched_on e.active_plugins))
        × (e'.active_plugins ≡ e.active_plugins)
        × (e'.processor.active_plugins ≡ length (switched_on e.active_plugins))
        × (length e'.processor.slots ≡ 10)
        × (e'.processor.bypass ≡ e.processor.bypass)
  unfolding build_plugin_chain
  build_plugin_chain-entries e long few =
      let start : Processor A = record e.processor { active_plugins = 0 } in
      let (proc, run, v) = build_from-total e.active_plugins start (omega (arith, long)) in
      (
        record e { processor = proc },
        rw run refl,
        v.entries,
        refl,
        omega (arith, v.count),
        v.size ∙ long,
        v.same_bypass,
      )

  -- With more than ten, it writes past the end of the arrays.
  pub build_plugin_chain-overflows :
      (e : Engine A)
      → length e.processor.slots ≡ 10
      → 10 < length (switched_on e.active_plugins)
      → build_plugin_chain e ≡ none
  unfolding build_plugin_chain
  build_plugin_chain-overflows e long many =
      let start : Processor A = record e.processor { active_plugins = 0 } in
      rw (build_from-overflows e.active_plugins start (omega (arith, long)) (omega arith)) refl
