-- ===== src/Database/Migrations/Fates.antt =====
-- Which migrations are skipped, applied or refused (src/db/migration-runner.ts).
use agent_p.Common.{
  ◌≡◌, refl, ap, ◌∙◌, ◌≢◌, ◌⊎◌, inl, inr, String, Option, none, some, List, Bool-cases, ◌==◌,
  ==_iff, string_eq, arith,
}
use agent_p.Database.Migrations.{
  MigrationEnv, recorded, Fate, skip, apply_it, mismatch, fate_by, fate_of,
}

module _ {World : Type 0} (db : MigrationEnv World) where
  -- A file without text, or with the text that is recorded.
  abbrev pub IsSettled : List (String × String) → String → String → Type 0
  IsSettled rows file text =
      (text ≡ "") ⊎ ((¬ (db.sha256 text ≡ "")) × (recorded rows file ≡ some (db.sha256 text)))

  -- A file with text and no checksum that counts.
  abbrev pub IsNew : List (String × String) → String → String → Type 0
  IsNew rows file text =
      (¬ (text ≡ "")) × ((recorded rows file ≡ none) ⊎ (recorded rows file ≡ some ""))

  -- The fate of a file, as a table.
  abbrev pub IsFate : List (String × String) → String → String → Fate → Type 0
  IsFate rows file text skip = IsSettled rows file text
  IsFate rows file text apply_it = IsNew rows file text
  IsFate rows file text mismatch =
      (c : String) × (¬ (c ≡ "")) × (¬ (c ≡ db.sha256 text)) × (recorded rows file ≡ some c)

  fate_by-IsFate :
      (rows : List (String × String)) (file text : String) (o : Option String) (f : Fate)
      → ¬ (text ≡ "")
      → recorded rows file ≡ o
      → fate_by o (db.sha256 text) ≡ f
      → IsFate rows file text f
  unfolding fate_by
  fate_by-IsFate rows file text none skip filled e h = cc
  fate_by-IsFate rows file text none apply_it filled e h = (filled, inl e)
  fate_by-IsFate rows file text none mismatch filled e h = cc
  fate_by-IsFate rows file text (some c) skip filled e h =
      let empty = ==_iff c "" in
      let equal : c ≡ db.sha256 text = (==_iff c (db.sha256 text)).0 (ground arith) in
      let filled_sum : ¬ (db.sha256 text ≡ "") = λ n. let both = equal ∙ n in ground arith in
      inr (filled_sum, e ∙ ap some equal)
  fate_by-IsFate rows file text (some c) apply_it filled e h =
      let empty : c ≡ "" = (==_iff c "").0 (ground arith) in (filled, inr (e ∙ ap some empty))
  fate_by-IsFate rows file text (some c) mismatch filled e h =
      let empty = ==_iff c "" in
      let equal = ==_iff c (db.sha256 text) in (c, (λ n. ground arith), (λ n. ground arith), e)

  skip-IsFate :
      (rows : List (String × String)) (file text : String) (f : Fate)
      → text ≡ ""
      → skip ≡ f
      → IsFate rows file text f
  skip-IsFate rows file text skip e h = inl e
  skip-IsFate rows file text apply_it e h = cc
  skip-IsFate rows file text mismatch e h = cc

  pub fate_of-IsFate :
      (rows : List (String × String)) (file text : String) (f : Fate)
      → fate_of db rows file text ≡ f
      → IsFate rows file text f
  unfolding fate_of
  fate_of-IsFate rows file text f h = elim (Bool-cases (text == "")) [
    | inl t ↦ skip-IsFate rows file text f ((==_iff text "").0 t) (rw t at h)
    | inr t ↦
        let filled : text ≢ "" = λ n. let u = (==_iff text "").1 n in cc in
        fate_by-IsFate rows file text (recorded rows file) f filled refl (rw t at h)
  ]

  pub IsSettled-skip :
      (rows : List (String × String)) (file text : String)
      → IsSettled rows file text
      → fate_of db rows file text ≡ skip
  unfolding fate_of fate_by
  IsSettled-skip rows file text (inl e) = let empty = ==_iff text "" in grind arith
  IsSettled-skip rows file text (inr (filled, e)) =
      let empty = ==_iff text "" in
      let none_there = ==_iff (db.sha256 text) "" in
      let same = ==_iff (db.sha256 text) (db.sha256 text) in ground arith

  pub IsNew-apply_it :
      (rows : List (String × String)) (file text : String)
      → IsNew rows file text
      → fate_of db rows file text ≡ apply_it
  unfolding fate_of fate_by
  IsNew-apply_it rows file text (filled, inl e) = let empty = ==_iff text "" in ground arith
  IsNew-apply_it rows file text (filled, inr e) = let empty = ==_iff text "" in ground arith
