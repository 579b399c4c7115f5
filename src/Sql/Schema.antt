-- ===== src/Sql/Schema.antt =====
-- The schema (sqlstore.go): the texts that `sqlstoreDDL` returns for a dialect and a table, index
-- names, and `sqlstoreRebind`, which numbers the marks of a text for Postgres.
use Prim.Native.String.{◌++◌}
use Prim.Native.Char.{code}
use oban.Prelude.{
  ℕ, zero, suc, ◌+◌, ◌/◌, ◌%◌, ◌==◌, leb, String, Bool, ◌&&◌, ◌||◌, List, [], ◌∷◌, map,
  if◌then◌else◌, str_eq,
}
use oban.Prelude as P
use oban.Sql.Text.{join}
use oban.Sql.{SqlDialect, postgres, sqlite, mysql, unknown_dialect}

abbrev pub default_sql_table : String
default_sql_table = "oban_jobs"

-- An `SQLStore`, but for its database, and the options of `NewSQLStore`, applied in order.
pub record SqlSettings : Type 0 where
  pub dialect : SqlDialect
  pub table : String

abbrev pub with_table_name : String → SqlSettings → SqlSettings
with_table_name name s = if str_eq name "" then s else record s { table = name }

abbrev pub apply_sql_options : List (SqlSettings → SqlSettings) → SqlSettings → SqlSettings
apply_sql_options [] s = s
apply_sql_options (opt ∷ opts) s = apply_sql_options opts (opt s)

abbrev pub new_sql_store : SqlDialect → List (SqlSettings → SqlSettings) → SqlSettings
new_sql_store d opts = apply_sql_options opts (record { dialect = d; table = default_sql_table })

-- `String` of a dialect.
abbrev pub dialect_name : SqlDialect → String
dialect_name postgres = "postgres"
dialect_name sqlite = "sqlite"
dialect_name mysql = "mysql"
dialect_name unknown_dialect = "unknown"

pub record ColumnTypes : Type 0 where
  pub id_type : String
  pub text_type : String
  pub key_type : String
  pub state_type : String
  pub json_type : String
  pub ts_type : String

abbrev pub postgres_types : ColumnTypes
postgres_types = record {
  id_type = "BIGSERIAL PRIMARY KEY";
  text_type = "TEXT";
  key_type = "TEXT";
  state_type = "TEXT";
  json_type = "JSONB";
  ts_type = "TIMESTAMPTZ";
}

abbrev pub column_types : SqlDialect → ColumnTypes
column_types postgres = postgres_types
column_types sqlite = record {
  id_type = "INTEGER PRIMARY KEY AUTOINCREMENT";
  text_type = "TEXT";
  key_type = "TEXT";
  state_type = "TEXT";
  json_type = "TEXT";
  ts_type = "DATETIME";
}
column_types mysql = record {
  id_type = "BIGINT AUTO_INCREMENT PRIMARY KEY";
  text_type = "TEXT";
  key_type = "VARCHAR(255)";
  state_type = "VARCHAR(64)";
  json_type = "JSON";
  ts_type = "DATETIME(6)";
}
column_types unknown_dialect = postgres_types

-- The bytes of an ASCII text.
abbrev pub codes : String → List ℕ
codes String.[] = []
codes (String.◌∷◌ c s) = code c ∷ codes s

abbrev is_alphanumeric : ℕ → Bool
is_alphanumeric r =
    (leb b'a' r && leb r b'z') || (leb b'A' r && leb r b'Z') || (leb b'0' r && leb r b'9')

-- `sqlstoreIndexName`, on the characters of the table's name and of the suffix.
abbrev pub index_name : List ℕ → List ℕ → List ℕ
index_name table suffix =
    P.◌++◌ (codes "idx_")
      (P.◌++◌ (map (λ r. if is_alphanumeric r then r else b'_') table) (b'_' ∷ suffix))

-- `itoa`, with a unit of fuel for each byte of its buffer.
unfoldable pub itoa_loop : ℕ → ℕ → List ℕ → List ℕ
itoa_loop zero n buf = buf
itoa_loop (suc i) n buf =
    let rest = itoa_loop i (n / 10) ((48 + n % 10) ∷ buf) in if n == 0 then buf else rest

unfoldable pub itoa : ℕ → List ℕ
unfolding itoa_loop
itoa n = if n == 0 then codes "0" else itoa_loop 20 n []

-- The loop of `sqlstoreRebind`, with the number of marks so far.
unfoldable pub rebind_loop : ℕ → List ℕ → List ℕ
unfolding itoa
rebind_loop n [] = []
rebind_loop n (c ∷ query) =
    let rest = rebind_loop (if c == b'?' then suc n else n) query in
    if c == b'?' then b'$' ∷ P.◌++◌ (itoa (suc n)) rest else c ∷ rest

unfoldable pub rebind : SqlDialect → List ℕ → List ℕ
unfolding rebind_loop
rebind postgres query = rebind_loop 0 query
rebind _ query = query

-- The `CREATE TABLE` of `sqlstoreDDL`.
abbrev pub create_table : ColumnTypes → String → String
create_table t table = join "" (
    "CREATE TABLE IF NOT EXISTS " ∷ table ∷ " (\n\tid " ∷ t.id_type ∷ ",\n\tqueue " ∷ t.key_type
    ∷ " NOT NULL,\n\tworker " ∷ t.key_type ∷ " NOT NULL,\n\targs " ∷ t.json_type
    ∷ " NOT NULL,\n\tmax_attempts INTEGER NOT NULL,\n\tattempt INTEGER NOT NULL"
    ∷ ",\n\tpriority INTEGER NOT NULL,\n\tstate " ∷ t.state_type ∷ " NOT NULL,\n\tscheduled_at "
    ∷ t.ts_type ∷ " NOT NULL,\n\tinserted_at " ∷ t.ts_type ∷ " NOT NULL,\n\tattempted_at "
    ∷ t.ts_type ∷ ",\n\tcompleted_at " ∷ t.ts_type ∷ ",\n\tdiscarded_at " ∷ t.ts_type
    ∷ ",\n\tunique_key " ∷ t.key_type ∷ ",\n\tunique_period_ns BIGINT NOT NULL,\n\tlast_error "
    ∷ t.text_type ∷ ",\n\terrors " ∷ t.json_type ∷ " NOT NULL,\n\ttags " ∷ t.json_type
    ∷ " NOT NULL,\n\tmeta " ∷ t.json_type ∷ " NOT NULL\n)" ∷ [])

-- MySQL does not accept IF NOT EXISTS on CREATE INDEX.
abbrev pub if_not_exists : SqlDialect → String
if_not_exists mysql = ""
if_not_exists _ = "IF NOT EXISTS "

abbrev pub create_index : SqlDialect → String → String → String → List ℕ
create_index dialect table suffix columns =
    P.◌++◌ (codes ("CREATE INDEX " ++ if_not_exists dialect)) (
      P.◌++◌ (index_name (codes table) (codes suffix))
        (codes (" ON " ++ (table ++ (" (" ++ (columns ++ ")"))))))

-- `sqlstoreDDL`, each statement as its bytes.
unfoldable pub ddl : SqlDialect → String → List (List ℕ)
ddl dialect table =
    codes (create_table (column_types dialect) table)
    ∷ create_index dialect table "fetch" "queue, state, priority, scheduled_at, id"
    ∷ create_index dialect table "unique" "state, worker, unique_key"
    ∷ []
