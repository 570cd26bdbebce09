-- ===== src/Manager/Setup.antt =====
-- LockFreeQueue.cpp: `init` and the table of registered functions.
use amprack_6_pc.Base.{
  ℕ, ◌+◌, ◌<◌, ◌≡◌, refl, ap, ◌∙◌, some, none, List, [], ◌++◌, arith, length, get_elem?, set,
  replicate, get_elem?-append_right, get_elem?-replicate, length-replicate, ◌>>=◌, true,
  get_elem?-set_self, get_elem?-set_ne, length-set, ltb, lt→ltb, le→ltb, Bool-cases, inl, inr,
}
use amprack_6_pc.Queue.{fresh}
use amprack_6_pc.Queue.Runs.{fresh-Stores}
use amprack_6_pc.Manager.{
  Heap, Manager, Callback, init, create, release_small, allocate, new_buffer, shape, add_function,
  write_function,
}
use amprack_6_pc.Manager.Delivery.{Holding, shape-IsShape}

module _ {A E : Type 0} where
  -- The manager after a first `init`.
  abbrev pub started : Heap A → List ℕ → ℕ → A → Manager A E
  started h cells n junk = record {
    heap = h ++ replicate 128 (some (new_buffer junk n));
    queue = fresh cells;
    pool = some (length h);
    buffer_size = n;
    buffer_counter = 0;
    ready = true;
    functions = replicate 10 none;
    functions_count = 0;
    thread_started = true;
  }

  init-eq-started :
      (h : Heap A) (cells : List ℕ) (garbage n : ℕ) (junk : A)
      → init junk n (create h cells garbage) ≡ started h cells n junk
  unfolding init create release_small allocate
  init-eq-started h cells garbage n junk = elim (Bool-cases (ltb garbage n)) [
    | inl e ↦ rw e refl
    | inr e ↦ rw e refl
  ]

  pub started-Holding :
      (h : Heap A) (cells : List ℕ) (n : ℕ) (junk : A)
      → length cells ≡ 128
      → Holding (started h cells n junk) []
  unfolding new_buffer
  started-Holding h cells n junk e = record {
    first = length h;
    start = 0;
    inv = record {
      is_ready = refl;
      allocated = refl;
      counter = refl;
      queued = fresh-Stores shape shape-IsShape cells e;
      owned = λ i p. record {
        buffer = new_buffer junk n;
        at_address =
            ap (λ o. o >>= λ b. b)
              (get_elem?-append_right h (replicate 128 (some (new_buffer junk n))) i
                ∙ get_elem?-replicate 128 i (some (new_buffer junk n)) p);
        raw_room = omega (arith, length-replicate n junk);
        samples_room = omega (arith, length-replicate n junk);
      };
    };
    view = refl;
  }

  -- A first `init` allocates 128 buffers of the size asked for, whatever the uninitialised
  -- `buffer_size` held, and nothing waits and no function is registered.
  pub init-Holding :
      (h : Heap A) (cells : List ℕ) (garbage n : ℕ) (junk : A) (m : Manager A E)
      → length cells ≡ 128
      → m ≡ init junk n (create h cells garbage)
      → Holding m [] × (m.buffer_size ≡ n) × (m.functions_count ≡ 0)
  init-Holding h cells garbage n junk m e is_init =
      let eq : m ≡ started h cells n junk = is_init ∙ init-eq-started h cells garbage n junk in
      rw eq (started-Holding h cells n junk e, refl, refl)

  -- `add_function` appends to the table while it holds fewer than ten functions.
  pub add_function-registers :
      (f : Callback A E) (m : Manager A E)
      → m.functions_count < 10
      → length m.functions ≡ 10
      → (m' : Manager A E) × (add_function f m ≡ some m')
        × (m'.functions_count ≡ m.functions_count + 1)
        × (get_elem? m'.functions m.functions_count ≡ some (some f))
        × ((i : ℕ) → i < m.functions_count → get_elem? m'.functions i ≡ get_elem? m.functions i)
        × (length m'.functions ≡ 10)
  unfolding add_function write_function
  add_function-registers f m p long = (
    record m {
      functions = set m.functions m.functions_count (some f);
      functions_count = m.functions_count + 1;
    },
    rw (le→ltb 10 m.functions_count (omega arith), lt→ltb m.functions_count 10 p) refl,
    refl,
    get_elem?-set_self m.functions m.functions_count (some f) (omega arith),
    λ i q. get_elem?-set_ne m.functions m.functions_count i (some f) (omega arith),
    length-set m.functions m.functions_count (some f) ∙ long,
  )

  -- The guard lets an eleventh function through: with ten in the table, the write goes past its end.
  -- From eleven on the call would be refused.
  pub add_function-overflows :
      (f : Callback A E) (m : Manager A E)
      → ((m.functions_count ≡ 10) → add_function f m ≡ none)
        × (10 < m.functions_count → add_function f m ≡ some m)
  unfolding add_function write_function
  add_function-overflows f m = (λ e. rw e refl, λ p. rw (lt→ltb 10 m.functions_count p) refl)
