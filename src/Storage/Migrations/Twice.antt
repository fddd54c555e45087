-- ===== src/Storage/Migrations/Twice.antt =====
-- runMigrations of storage/storage.go: the next start finds nothing to do.
use re_mazarin.Common.{
  String, ◌≡◌, Bool, true, false, not, ◌||◌, Option, none, some, List, [], ◌∷◌, ◌++◌, any, All,
  arith, refl, ap, ◌∙◌, Bool-cases, inl, inr, then_branch, else_branch,
}
use re_mazarin.Common.Int.{ℤ, eq_ℤ, eq_ℤ_iff}
use re_mazarin.Common.Text.{has_suffix}
use re_mazarin.Storage.Migrations.{
  Database, MigrationFile, Migrated, version_of, has_version, exec_all, recorded, applied,
  versioned, run_file, run_next, run_files, split_sql, bootstrap_from, bootstrap_migrations,
  run_migrations,
}

any-append_left : (v : ℤ) (vs ws : List ℤ) → any (eq_ℤ v) vs ≡ true → any (eq_ℤ v) (vs ++ ws) ≡ true
any-append_left v [] ws h = ground arith
any-append_left v (u ∷ us) ws h = ground (arith, h, any-append_left v us ws)

any-append_last : (v : ℤ) (vs : List ℤ) → any (eq_ℤ v) (vs ++ v ∷ []) ≡ true
any-append_last v [] = ground (arith, eq_ℤ_iff v v)
any-append_last v (u ∷ us) = ground (arith, any-append_last v us)

abbrev is_skipped : MigrationFile → Bool
is_skipped f = f.is_dir || not (has_suffix ".sql" f.name)

abbrev has_some : Option ℤ → List ℤ → Bool
has_some none vs = true
has_some (some v) vs = any (eq_ℤ v) vs

-- A file is no migration, or its version is recorded.
abbrev is_done : List ℤ → MigrationFile → Bool
is_done vs f = is_skipped f || has_some (version_of f.name) vs

module _ {ℓ} {D : Type ℓ} (db : Database D) where
  recorded-grows :
      (st : Migrated D) (v w : ℤ) (x : D × Bool)
      → any (eq_ℤ w) st.versions ≡ true
      → any (eq_ℤ w) (recorded db st v x).0.versions ≡ true
  recorded-grows st v w (t, true) h = any-append_left w st.versions (v ∷ []) h
  recorded-grows st v w (t, false) h = h

  applied-grows :
      (st : Migrated D) (v w : ℤ) (content : Option String)
      → any (eq_ℤ w) st.versions ≡ true
      → any (eq_ℤ w) (applied db st v content).0.versions ≡ true
  applied-grows st v w none h = h
  applied-grows st v w (some sql) h = recorded-grows st v w _ h

  versioned-grows :
      (st : Migrated D) (w : ℤ) (content : Option String) (o : Option ℤ)
      → any (eq_ℤ w) st.versions ≡ true
      → any (eq_ℤ w) (versioned db st content o).0.versions ≡ true
  versioned-grows st w content none h = h
  versioned-grows st w content (some v) h = ground (arith, h, applied-grows st v w content h)

  file-grows :
      (f : MigrationFile) (st : Migrated D) (w : ℤ)
      → any (eq_ℤ w) st.versions ≡ true
      → any (eq_ℤ w) (run_file db f st).0.versions ≡ true
  unfolding run_file
  file-grows f st w h = ground (arith, h, versioned-grows st w f.content (version_of f.name) h)

  applied-done :
      (st : Migrated D) (v : ℤ) (content : Option String)
      → (applied db st v content).1 ≡ true
      → any (eq_ℤ v) (applied db st v content).0.versions ≡ true
  applied-done st v none h = ground (arith, h)
  applied-done st v (some sql) h = recorded-done st v (exec_all db (split_sql sql) st.tables) h
    where
      recorded-done :
          (st : Migrated D) (v : ℤ) (x : D × Bool)
          → (recorded db st v x).1 ≡ true
          → any (eq_ℤ v) (recorded db st v x).0.versions ≡ true
      recorded-done st v (t, true) h = any-append_last v st.versions
      recorded-done st v (t, false) h = ground (arith, h)

  versioned-done :
      (st : Migrated D) (content : Option String) (o : Option ℤ)
      → (versioned db st content o).1 ≡ true
      → has_some o (versioned db st content o).0.versions ≡ true
  versioned-done st content none h = refl
  versioned-done st content (some v) h = ground (arith, h, applied-done st v content)

  file-done :
      (f : MigrationFile) (st : Migrated D)
      → (run_file db f st).1 ≡ true
      → is_done (run_file db f st).0.versions f ≡ true
  unfolding run_file
  file-done f st h = ground (arith, h, versioned-done st f.content (version_of f.name))

  skip_done :
      (f : MigrationFile) (st : Migrated D)
      → is_done st.versions f ≡ true
      → run_file db f st ≡ (st, true)
  unfolding run_file
  skip_done f st h = elim (Bool-cases (is_skipped f)) [
    | inl t ↦ then_branch _ _ _ t
    | inr n ↦ else_branch _ _ _ n ∙ old (version_of f.name) (ground (arith, h, n))
  ]
    where
      old :
          (o : Option ℤ) → has_some o st.versions ≡ true → versioned db st f.content o ≡ (st, true)
      old none h = refl
      old (some v) h = then_branch _ _ _ h

  next-grows :
      (rest : Migrated D → Migrated D × Bool) (w : ℤ)
      → ((st : Migrated D)
          → any (eq_ℤ w) st.versions ≡ true
          → any (eq_ℤ w) (rest st).0.versions ≡ true)
      → (x : Migrated D × Bool) → any (eq_ℤ w) x.0.versions ≡ true
      → any (eq_ℤ w) (run_next db rest x).0.versions ≡ true
  next-grows rest w ih (st, true) h = ih st h
  next-grows rest w ih (st, false) h = h

  files-grows :
      (fs : List MigrationFile) (w : ℤ) (st : Migrated D)
      → any (eq_ℤ w) st.versions ≡ true
      → any (eq_ℤ w) (run_files db fs st).0.versions ≡ true
  unfolding run_files
  files-grows [] w st h = h
  files-grows (f ∷ fs) w st h =
      next-grows (run_files db fs) w (files-grows fs w) (run_file db f st) (file-grows f st w h)

  some-grows :
      (fs : List MigrationFile) (st : Migrated D) (o : Option ℤ)
      → has_some o st.versions ≡ true
      → has_some o (run_files db fs st).0.versions ≡ true
  some-grows fs st none h = h
  some-grows fs st (some v) h = files-grows fs v st h

  done-grows :
      (fs : List MigrationFile) (st : Migrated D) (f : MigrationFile)
      → is_done st.versions f ≡ true
      → is_done (run_files db fs st).0.versions f ≡ true
  done-grows fs st f h = ground (arith, h, some-grows fs st (version_of f.name))

  abbrev Finished : List MigrationFile → Migrated D × Bool → Type 0
  Finished fs x = All (λ f. is_done x.0.versions f ≡ true) fs

  next-done :
      (f : MigrationFile) (fs : List MigrationFile) (x : Migrated D × Bool)
      → ((st : Migrated D) → (run_files db fs st).1 ≡ true → Finished fs (run_files db fs st))
      → (x.1 ≡ true → is_done x.0.versions f ≡ true)
      → (run_next db (run_files db fs) x).1 ≡ true
      → Finished (f ∷ fs) (run_next db (run_files db fs) x)
  next-done f fs (st, true) ih first h = (done-grows fs st f (first refl), ih st h)
  next-done f fs (st, false) ih first h = absurd (cc h)

  files-done :
      (fs : List MigrationFile) (st : Migrated D)
      → (run_files db fs st).1 ≡ true
      → Finished fs (run_files db fs st)
  unfolding run_files
  files-done [] st h = tt
  files-done (f ∷ fs) st h = next-done f fs (run_file db f st) (files-done fs) (file-done f st) h

  skip_all :
      (fs : List MigrationFile) (st : Migrated D)
      → Finished fs (st, true)
      → run_files db fs st ≡ (st, true)
  unfolding run_files
  skip_all [] st h = refl
  skip_all (f ∷ fs) st (h, hs) =
      ap (run_next db (run_files db fs)) (skip_done f st h) ∙ skip_all fs st hs

  bootstrap_from-some :
      (st : Migrated D) (w : ℤ) (vs : List ℤ)
      → any (eq_ℤ w) vs ≡ true
      → bootstrap_from db st vs ≡ st
  unfolding bootstrap_from
  bootstrap_from-some st w [] h = absurd (cc h)
  bootstrap_from-some st w (v ∷ vs) h = refl

  bootstrapped :
      (st : Migrated D) (w : ℤ) → any (eq_ℤ w) st.versions ≡ true → bootstrap_migrations db st ≡ st
  unfolding bootstrap_migrations
  bootstrapped st w h = bootstrap_from-some st w st.versions h

  -- If a start ran all migrations without an error, and one version at least is recorded, the next start
  -- executes no statement and leaves the database as it is.
  pub run_migrations-twice :
      (fs : List MigrationFile) (st : Migrated D) (w : ℤ)
      → (run_migrations db fs st).1 ≡ true
      → has_version db w (run_migrations db fs st).0.versions ≡ true
      → run_migrations db fs (run_migrations db fs st).0 ≡ ((run_migrations db fs st).0, true)
  unfolding run_migrations
  run_migrations-twice fs st w h k =
      ap (run_files db fs) (bootstrapped (run_migrations db fs st).0 w k)
      ∙ skip_all fs (run_migrations db fs st).0 (files-done fs (bootstrap_migrations db st) h)
