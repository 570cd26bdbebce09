-- ===== src/Manager/Session.antt =====
-- LockFreeQueue.cpp: a run of blocks through `process`, and then the other thread's turn.
use amprack_6_pc.Base.{
  ℕ, ◌+◌, ◌≤◌, ◌<◌, ◌≡◌, refl, sym, ◌∙◌, Option, some, List, [], ◌∷◌, ◌++◌, map, arith, length,
  length-map, take, length-append, append-nil, append_assoc, ◌>>=◌,
}
use mathlib.Core.Path.{subst}
use amprack_6_pc.Manager.{Manager, process, serve}
use amprack_6_pc.Manager.Blocks.{Block}
use amprack_6_pc.Manager.Delivery.{Holding, process-enqueues}
use amprack_6_pc.Manager.Serve.{Registered, deliver, serve-delivers}

-- The arguments of one call of `process`.
pub record Job (A : Type 0) : Type 0 where
  pub dry : List A
  pub wet : List A
  pub count : ℕ

module _ {A : Type 0} where
  abbrev pub block : Job A → Block A
  block j = record { dry = take j.count j.dry; wet = take j.count j.wet; count = j.count }

  -- The samples are there, and a spare buffer has room for them.
  pub record Fits (size : ℕ) (j : Job A) : Type 0 where
    pub room : j.count ≤ size
    pub dry_long : j.count ≤ length j.dry
    pub wet_long : j.count ≤ length j.wet

  abbrev pub AllFit : ℕ → List (Job A) → Type 0
  AllFit size [] = Unit
  AllFit size (j ∷ js) = Fits size j × AllFit size js

module _ {A E : Type 0} where
  pub process_all : List (Job A) → Manager A E → Option (Manager A E)
  process_all [] m = some m
  process_all (j ∷ js) m = do m' ← process j.dry j.wet j.count m; process_all js m'

  pub process_all-Holding :
      (js : List (Job A)) (bs : List (Block A)) (m : Manager A E)
      → AllFit m.buffer_size js
      → length bs + length js ≤ 128
      → Holding m bs
      → (m' : Manager A E) × (process_all js m ≡ some m')
        × Holding m' (bs ++ map block js)
        × (m'.functions ≡ m.functions)
        × (m'.functions_count ≡ m.functions_count)
        × (m'.buffer_size ≡ m.buffer_size)
  unfolding process_all
  process_all-Holding [] bs m fit h v =
      (m, refl, subst (Holding m) (sym (append-nil bs)) v, refl, refl, refl)
  process_all-Holding (j ∷ js) bs m fit h v =
      let (m₁, e₁, v₁, f₁, c₁, s₁) =
        process-enqueues m bs j.dry j.wet j.count v (omega arith) fit.0.room fit.0.dry_long
          fit.0.wet_long in
      let (m₂, e₂, v₂, f₂, c₂, s₂) =
        process_all-Holding js (bs ++ block j ∷ []) m₁ (subst (λ n. AllFit n js) (sym s₁) fit.1)
          (omega (arith, length-append {0} bs (block j ∷ []))) v₁ in
      (
        m₂,
        rw e₁ e₂,
        subst (Holding m₂) (append_assoc bs (block j ∷ []) (map block js)) v₂,
        f₂ ∙ f₁,
        c₂ ∙ c₁,
        s₂ ∙ s₁,
      )

  -- As long as at most 128 blocks come between two turns of the other thread, each registered
  -- function is given every block exactly once, in order, with the samples that `process` was given.
  pub session-delivers :
      (js : List (Job A)) (gs : List (Block A → E → E)) (fuel last : ℕ) (m : Manager A E) (e : E)
      → Holding m []
      → AllFit m.buffer_size js
      → length js ≤ 128
      → length js < fuel
      → m.functions_count ≡ length gs
      → Registered m.functions 0 gs
      → (m' : Manager A E) × ((process_all js m >>= λ m₁. serve fuel last m₁ e)
          ≡ some (m', deliver gs (map block js) e))
        × Holding m' []
  session-delivers js gs fuel last m e v fit few enough c r =
      let (m₁, e₁, v₁, f₁, c₁, _) = process_all-Holding js [] m fit (omega arith) v in
      let (m₂, e₂, v₂) =
        serve-delivers (map block js) gs fuel last m₁ e
          (omega (arith, length-map (block {A = A}) js)) (c₁ ∙ c)
          (subst (λ fs. Registered fs 0 gs) (sym f₁) r) v₁ in
      (m₂, rw e₁ e₂, v₂)
