-- ===== src/Manager/Serve.antt =====
-- LockFreeQueue.cpp: the inner loop of `main` hands every waiting block to every registered function.
use mathlib.Core.Path.{subst}
use amprack_6_pc.Base.{
  ℕ, zero, suc, eq_of_some-eq, ◌+◌, ◌%◌, ◌<◌, ◌≡◌, refl, sym, ap, ◌∙◌, Option, some, List, [], ◌∷◌,
  arith, length, get_elem?, tail, head?, ◌>>=◌,
}
use amprack_6_pc.Queue.{pop}
use amprack_6_pc.Queue.Refine.{pop_refines}
use amprack_6_pc.Manager.{AudioBuffer, Manager, Callback, serve, call_functions, shape}
use amprack_6_pc.Manager.Blocks.{Block, block_of, slots}
use amprack_6_pc.Manager.Delivery.{IsRoomy, Holding, shape-IsShape}

module _ {A E : Type 0} where
  -- The functions stored from index `i` on behave as `gs` on the block that a buffer shows.
  abbrev pub Registered : List (Option (Callback A E)) → ℕ → List (Block A → E → E) → Type 0
  Registered fs i [] = Unit
  Registered fs i (g ∷ gs) =
      ((f : Callback A E) × (get_elem? fs i ≡ some (some f))
        × ((b : AudioBuffer A) (e : E) → f b e ≡ g (block_of b) e))
      × Registered fs (i + 1) gs

  -- One block, given to each function in turn.
  unfoldable pub apply_all : List (Block A → E → E) → Block A → E → E
  apply_all [] b e = e
  apply_all (g ∷ gs) b e = apply_all gs b (g b e)

  unfoldable pub deliver : List (Block A → E → E) → List (Block A) → E → E
  deliver gs [] e = e
  deliver gs (b ∷ bs) e = deliver gs bs (apply_all gs b e)

  call_functions-apply_all :
      (gs : List (Block A → E → E)) (i : ℕ) (b : AudioBuffer A) (m : Manager A E) (e : E)
      → Registered m.functions i gs
      → call_functions (length gs) i b m e ≡ some (apply_all gs (block_of b) e)
  unfolding call_functions apply_all
  call_functions-apply_all [] i b m e r = refl
  call_functions-apply_all (g ∷ gs) i b m e r =
      let (f, found, same) = r.0 in
      rw (found, same b e) (call_functions-apply_all gs (i + 1) b m (g (block_of b) e) r.1)

  -- With fuel for one round more than blocks wait, the loop ends, every function has been given
  -- every block in the order in which they were processed, and nothing waits.
  pub serve-delivers :
      (bs : List (Block A)) (gs : List (Block A → E → E)) (fuel last : ℕ) (m : Manager A E) (e : E)
      → length bs < fuel
      → m.functions_count ≡ length gs
      → Registered m.functions 0 gs
      → Holding m bs
      → (m' : Manager A E) × (serve fuel last m e ≡ some (m', deliver gs bs e)) × Holding m' []
  unfolding serve deliver
  serve-delivers bs gs zero last m e f c r h = elim f [ ]
  serve-delivers [] gs (suc fuel) last m e f c r h =
      let p = pop_refines shape shape-IsShape m.queue [] last h.inv.queued in
      (m, rw (p.0, serve) refl, h)
  serve-delivers (b ∷ bs) gs (suc fuel) last m e f c r h =
      let addr : ℕ = h.first + h.start % 128 in
      let p =
        pop_refines shape shape-IsShape m.queue (slots h.first h.start (suc (length bs))) last
          h.inv.queued in
      let v : IsRoomy m.buffer_size m.heap addr = h.inv.owned (h.start % 128) (omega arith) in
      let seen : some (block_of v.buffer) ≡ some b =
        sym (ap (λ o. o >>= λ y. some (block_of y)) v.at_address)
        ∙ eq_of_some-eq (ap head? h.view) in
      let calls : call_functions m.functions_count 0 v.buffer m e
          ≡ some (apply_all gs (block_of v.buffer) e) =
        subst (λ n. call_functions n 0 v.buffer m e ≡ some (apply_all gs (block_of v.buffer) e))
          (sym c) (call_functions-apply_all gs 0 v.buffer m e r) in
      let m₁ : Manager A E = record m { queue = (pop shape m.queue last).2 } in
      let h₁ : Holding m₁ bs = record {
        first = h.first;
        start = h.start + 1;
        inv = record {
          is_ready = h.inv.is_ready;
          allocated = h.inv.allocated;
          counter = h.inv.counter ∙ ap (λ (t : ℕ). t % 128) (omega arith);
          queued = p.2;
          owned = h.inv.owned;
        };
        view = ap tail h.view;
      } in
      let (m', e', done) =
        serve-delivers bs gs fuel addr m₁ (apply_all gs b e) (omega arith) c r h₁ in
      (m', rw (p.0, p.1, serve, v.at_address, calls, eq_of_some-eq seen) e', done)
