-- ===== src/Presets/Exchange/Written.antt =====
-- presets.cc: the files and the list of presets after an import.
use amprack_6_pc.Base.{
  ℕ, ◌+◌, ◌==◌, ◌≡◌, ◌≢◌, refl, sym, ap, ◌∙◌, arith, true, Bool-cases, inl, inr, ◌⊎◌, Option, some,
  List, [], ◌∷◌, ◌++◌, length, append_assoc, append-nil, if◌then◌else◌, In, ne→==,
}
use amprack_6_pc.Files.{Bytes, eq_bytes, lookup, put}
use amprack_6_pc.Files.Copies.{
  lookup-put, eq_bytes-append, json_to_filename-put, eq_bytes_iff, eq_bytes_refl,
}
use amprack_6_pc.Presets.Exchange.{PresetJson, Shelf, add_preset, import_all}

module _ {J : Type 0} (l : PresetJson J) where
  -- What `json_to_filename` writes of a value.
  abbrev pub text_of : J → Bytes
  text_of j = l.json.dump j ++ 10 ∷ []

  -- What a path holds after presets were written in turn, each to the file of its name.
  abbrev pub written : Bytes → List J → Bytes → Option Bytes → Option Bytes
  written dir [] p before = before
  written dir (j ∷ js) p before =
      written dir js p (if eq_bytes (dir ++ l.name j) p then some (text_of j) else before)

  -- A preset that can be imported: its name is a text, and its file can be made.
  pub record CanImport (s : Shelf J) (j : J) : Type 0 where
    pub has_name : l.is_object j ≡ true
    pub is_text : l.is_text j ≡ true
    pub can_write : s.fs.writable (s.presets_dir ++ l.name j) ≡ true

  -- What the loop of the import makes of one preset.
  abbrev pub imported : J → Shelf J → Shelf J
  imported j s = record s {
    list_of_presets = λ i. if i == 1 then s.list_of_presets i ++ j ∷ [] else s.list_of_presets i;
    fs = record s.fs { files = put (s.presets_dir ++ l.name j) (text_of j) s.fs.files };
  }

  import_all-step :
      (j : J) (js : List J) (n : ℕ) (s : Shelf J)
      → CanImport s j
      → import_all l (j ∷ js) n s ≡ import_all l js (n + 1) (imported j s)
  unfolding import_all add_preset
  import_all-step j js n s v =
      rw
        (
          import_all,
          v.has_name,
          v.is_text,
          json_to_filename-put l.json j (s.presets_dir ++ l.name j) s.fs v.can_write,
        )
        refl

  -- When every preset can be imported, the loop counts them, appends them to the user's list, leaves the
  -- other lists, and writes each to the file of its name.
  pub import_all-written :
      (js : List J) (n : ℕ) (s : Shelf J)
      → ((j : J) → In j js → CanImport s j)
      → (s' : Shelf J) × (import_all l js n s ≡ some (n + length js, s'))
        × ((p : Bytes) → lookup p s'.fs.files ≡ written s.presets_dir js p (lookup p s.fs.files))
        × (s'.list_of_presets 1 ≡ s.list_of_presets 1 ++ js)
        × ((i : ℕ) → i ≢ 1 → s'.list_of_presets i ≡ s.list_of_presets i)
  unfolding import_all
  import_all-written [] n s v = (
    s,
    ap (λ m. some (m, s)) {x = n} {y = n + 0} (omega arith),
    λ p. refl,
    sym (append-nil (s.list_of_presets 1)),
    λ i h. refl,
  )
  import_all-written (j ∷ js) n s v =
      let can = v j (inl refl) in
      let later : (k : J) → In k js → CanImport (imported j s) k = λ k there.
        let w = v k (inr there) in
        record { has_name = w.has_name; is_text = w.is_text; can_write = w.can_write } in
      let (s', run, files, list, others) = import_all-written js (n + 1) (imported j s) later in
      (
        s',
        import_all-step j js n s can
            ∙ run
            ∙ ap (λ m. some (m, s')) {x = n + 1 + length js} {y = n + length (j ∷ js)}
                (omega arith),
        λ p.
            files p
            ∙ ap (written s.presets_dir js p)
                (lookup-put (s.presets_dir ++ l.name j) p (text_of j) s.fs.files),
        list ∙ append_assoc (s.list_of_presets 1) (j ∷ []) js,
        λ i h.
            others i h
            ∙ ap (λ b. if b then s.list_of_presets i ++ j ∷ [] else s.list_of_presets i)
                (ne→== i 1 h),
      )

  written-mem :
      (dir : Bytes) (js : List J) (j : J) (before : Option Bytes)
      → ((k : J) → In k js → l.name j ≡ l.name k → j ≡ k)
      → (before ≡ some (text_of j)) ⊎ In j js
      → written dir js (dir ++ l.name j) before ≡ some (text_of j)
  written-mem dir [] j before one (inl e) = e
  written-mem dir [] j before one (inr there) = absurd there
  written-mem dir (k ∷ js) j before one h =
      elim (Bool-cases (eq_bytes (dir ++ l.name k) (dir ++ l.name j))) [
        | inl same ↦
            let e = one k (inl refl) (
              sym (
                (eq_bytes_iff (l.name k) (l.name j)).0
                  (sym (eq_bytes-append dir (l.name k) (l.name j)) ∙ same))) in
            rw same (
              written-mem dir js j (some (text_of k)) (λ i there. one i (inr there))
                (inl (ap (λ i. some (text_of i)) (sym e))))
        | inr other ↦ rw other (
            written-mem dir js j before (λ i there. one i (inr there))
              (elim h [
                | inl e ↦ inl e
                | inr (inr there) ↦ inr there
                | inr (inl e) ↦
                    let same : eq_bytes (dir ++ l.name k) (dir ++ l.name j) ≡ true =
                      ap (λ i. eq_bytes (dir ++ l.name k) (dir ++ l.name i)) e
                      ∙ eq_bytes_refl (dir ++ l.name k) in
                    cc
              ]))
      ]

  -- The preset that the file of a name holds, where no other of the presets has this name.
  pub written-name :
      (dir : Bytes) (js : List J) (j : J) (before : Option Bytes)
      → ((k : J) → In k js → l.name j ≡ l.name k → j ≡ k)
      → In j js
      → written dir js (dir ++ l.name j) before ≡ some (text_of j)
  written-name dir js j before one there = written-mem dir js j before one (inr there)

  -- A path that is no preset's.
  pub written-other :
      (dir : Bytes) (js : List J) (p : Bytes) (before : Option Bytes)
      → ((j : J) → In j js → dir ++ l.name j ≢ p)
      → written dir js p before ≡ before
  written-other dir [] p before h = refl
  written-other dir (j ∷ js) p before h = elim (Bool-cases (eq_bytes (dir ++ l.name j) p)) [
    | inl same ↦ absurd (h j (inl refl) ((eq_bytes_iff (dir ++ l.name j) p).0 same))
    | inr other ↦ rw other (written-other dir js p before (λ k there. h k (inr there)))
  ]
