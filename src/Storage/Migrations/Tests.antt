-- ===== src/Storage/Migrations/Tests.antt =====
-- Runs of migrations on a database that is the list of its statements.
use re_mazarin.Common.{
  String, ◌≡◌, true, false, none, some, List, [], ◌∷◌, ◌++◌, refl, str_eq, if◌then◌else◌,
}
use re_mazarin.Common.Int.{pos}
use re_mazarin.Common.Text.{split, split_first, to_upper, trim_space, has_suffix, atoi}
use re_mazarin.Storage.Migrations.{
  Database, MigrationFile, Migrated, split_sql, has_version, run_migrations,
}
use re_mazarin.Storage.Migrations.Twice.{run_migrations-twice}

-- Every statement but one succeeds; there is no table yet.
abbrev script_database : Database (List String)
script_database = record {
  exec = λ t stmt. if str_eq stmt "FAIL;" then none else some (t ++ stmt ∷ []);
  has_table = λ _ _. false;
  has_column = λ _ _ _. false;
}

abbrev first_file : MigrationFile
first_file = record { name = "001_initial.sql"; is_dir = false; content = some "A;\nB;\n" }

abbrev second_file : MigrationFile
second_file = record {
  name = "002_trigger.sql";
  is_dir = false;
  content = some "CREATE TRIGGER t\nBEGIN\n  C;\nEND;\nD;\n";
}

abbrev fresh : Migrated (List String)
fresh = record { tables = []; versions = [] }

abbrev files : List MigrationFile
files = first_file ∷ second_file ∷ []

-- A body between BEGIN and END is one statement.
trigger :
    split_sql "CREATE TRIGGER t\nBEGIN\n  C;\nEND;\nD;\n"
    ≡ "CREATE TRIGGER t\nBEGIN\n  C;\nEND;" ∷ "D;" ∷ []
unfolding split_sql split to_upper trim_space has_suffix
trigger = refl

done : (run_migrations script_database files fresh).1 ≡ true
unfolding run_migrations has_suffix split_first atoi split to_upper trim_space
done = refl

second :
    has_version script_database (pos 2) (run_migrations script_database files fresh).0.versions
    ≡ true
unfolding run_migrations has_suffix split_first atoi split to_upper trim_space
second = refl

run_migrations-twice_example :
    run_migrations script_database files (run_migrations script_database files fresh).0
    ≡ ((run_migrations script_database files fresh).0, true)
run_migrations-twice_example = run_migrations-twice script_database files fresh (pos 2) done second
