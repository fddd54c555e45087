-- ===== src/Storage/Migrations.antt =====
-- runMigrations, bootstrapMigrations and splitSQL of storage/storage.go. A `Database` stands for SQLite: what
-- a statement of a migration makes of the other tables, or an error, and whether a column exists. The
-- table schema_migrations is the list of its versions; no file touches it.
mod Twice
mod Tests
use re_mazarin.Common.{
  ℕ, zero, suc, String, Bool, true, false, not, ◌&&◌, ◌||◌, Option, none, some, List, [], ◌∷◌, ◌++◌,
  any, str_eq, if◌then◌else◌,
}
use re_mazarin.Common.Int.{ℤ, pos, negsuc, eq_ℤ}
use re_mazarin.Common.Text.{split, split_first, trim_space, atoi, to_upper, has_suffix}

pub record Database {ℓ} (D : Type ℓ) : Type ℓ where
  pub exec : D → String → Option D
  pub has_table : D → String → Bool
  pub has_column : D → (table column : String) → Bool

-- An entry of the embedded directory; `none` is a file that cannot be read.
pub record MigrationFile : Type 0 where
  pub name : String
  pub is_dir : Bool
  pub content : Option String

pub record Migrated {ℓ} (D : Type ℓ) : Type ℓ where
  pub tables : D
  pub versions : List ℤ

infixr 65 ◌<>◌
abbrev ◌<>◌ : String → String → String
◌<>◌ s t = Prim.Native.String.◌++◌ s t

-- The counter of the lines BEGIN and END.
unfoldable pub depth_after : ℤ → (upper : String) → ℤ
depth_after d upper =
    if str_eq upper "BEGIN"
    then next d
    else if str_eq upper "END" || str_eq upper "END;"
    then previous d
    else d
  where
    next : ℤ → ℤ
    next (pos n) = pos (suc n)
    next (negsuc zero) = pos 0
    next (negsuc (suc n)) = negsuc n

    previous : ℤ → ℤ
    previous (pos zero) = negsuc 0
    previous (pos (suc n)) = pos n
    previous (negsuc n) = negsuc (suc n)

-- A statement that is not empty.
abbrev pub statement : String → List String → List String
statement stmt rest = if str_eq stmt "" || str_eq stmt ";" then rest else stmt ∷ rest

unfoldable pub split_lines : List String → (buf : String) → ℤ → List String
unfolding depth_after
split_lines [] buf d = if str_eq (trim_space buf) "" then [] else trim_space buf ∷ []
split_lines (line ∷ lines) buf d =
    let buf' = buf <> (line <> "\n") in
    let d' = depth_after d (to_upper (trim_space line)) in
    let flushed = statement (trim_space buf') (split_lines lines "" d') in
    let kept = split_lines lines buf' d' in
    if eq_ℤ d' (pos 0) && has_suffix ";" (trim_space line) then flushed else kept

-- splitSQL
unfoldable pub split_sql : String → List String
unfolding split_lines
split_sql s = split_lines (split b'\n' s) "" (pos 0)

-- strings.SplitN(name, "_", 2)[0], as a number.
unfoldable pub version_of : (name : String) → Option ℤ
version_of name = elim (split_first b'_' name) [ none ↦ atoi name | some (v, _) ↦ atoi v ]

module _ {ℓ} {D : Type ℓ} (db : Database D) where
  abbrev pub exec_next : (D → D × Bool) → D → Option D → D × Bool
  exec_next rest t none = (t, false)
  exec_next rest t (some t') = rest t'

  -- The statements up to the first that fails; what the others made stays.
  unfoldable pub exec_all : List String → D → D × Bool
  exec_all [] t = (t, true)
  exec_all (stmt ∷ stmts) t = exec_next (exec_all stmts) t (db.exec t stmt)

  abbrev pub recorded : Migrated D → ℤ → D × Bool → Migrated D × Bool
  recorded st v (t, true) = (record { tables = t; versions = st.versions ++ v ∷ [] }, true)
  recorded st v (t, false) = (record st { tables = t }, false)

  abbrev pub applied : Migrated D → ℤ → Option String → Migrated D × Bool
  applied st v none = (st, false)
  applied st v (some sql) = recorded st v (exec_all (split_sql sql) st.tables)

  abbrev pub has_version : ℤ → List ℤ → Bool
  has_version v vs = any (eq_ℤ v) vs

  abbrev pub versioned : Migrated D → Option String → Option ℤ → Migrated D × Bool
  versioned st content none = (st, true)
  versioned st content (some v) =
      if has_version v st.versions then (st, true) else applied st v content

  -- A round of the loop over the directory.
  unfoldable pub run_file : MigrationFile → Migrated D → Migrated D × Bool
  unfolding exec_all split_sql version_of
  run_file f st =
      if f.is_dir || not (has_suffix ".sql" f.name)
      then (st, true)
      else versioned st f.content (version_of f.name)

  abbrev pub run_next : (Migrated D → Migrated D × Bool) → Migrated D × Bool → Migrated D × Bool
  run_next rest (st, true) = rest st
  run_next rest (st, false) = (st, false)

  unfoldable pub run_files : List MigrationFile → Migrated D → Migrated D × Bool
  unfolding run_file
  run_files [] st = (st, true)
  run_files (f ∷ fs) st = run_next (run_files fs) (run_file f st)

  -- The versions that a database from before the tracking has, by its columns.
  unfoldable pub old_versions : D → List ℤ
  old_versions t =
      pos 1 ∷ marked 2 "allowed_groups"
      ++ marked 3 "allowed_ips"
      ++ marked 4 "ip_auth"
      ++ marked 5 "session_duration"
    where
      marked : ℕ → String → List ℤ
      marked v column = if db.has_column t "proxy_routes" column then pos v ∷ [] else []

  unfoldable pub bootstrap_from : Migrated D → List ℤ → Migrated D
  unfolding old_versions
  bootstrap_from st (v ∷ vs) = st
  bootstrap_from st [] =
      if db.has_table st.tables "proxy_routes"
      then record st { versions = old_versions st.tables }
      else st

  unfoldable pub bootstrap_migrations : Migrated D → Migrated D
  unfolding bootstrap_from
  bootstrap_migrations st = bootstrap_from st st.versions

  -- The files in the order of their names, and whether the program goes on.
  unfoldable pub run_migrations : List MigrationFile → Migrated D → Migrated D × Bool
  unfolding run_files bootstrap_migrations
  run_migrations fs st = run_files fs (bootstrap_migrations st)
