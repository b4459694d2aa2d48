-- ===== src/Exports/Data/Serializing.antt =====
-- The columns of an export and its text, in src/services/exportQueue.ts.
use disciplr_backend.Prelude.{
  ℕ, String, Bool, false, Option, none, some, List, [], ◌∷◌, map, if◌then◌else◌, filter, any, same,
  ◌==◌, ◌||◌, join, lookup, is_some,
}
use Prim.Native.Char.{code}
use disciplr_backend.Exports.{
  ExportFormat, csv, json, ndjson, Section, vaults_section, transactions_section, analytics_section,
  Columns,
}
use disciplr_backend.Exports.Data.{Row, field, ExportData}

abbrev pub vaults_keys : List String
vaults_keys =
    "id" ∷ "creator" ∷ "amount" ∷ "status" ∷ "startDate" ∷ "endDate" ∷ "verifier"
    ∷ "successDestination" ∷ "failureDestination" ∷ "createdAt" ∷ []

abbrev pub transactions_keys : List String
transactions_keys =
    "id" ∷ "userId" ∷ "vaultId" ∷ "txHash" ∷ "type" ∷ "amount" ∷ "assetCode" ∷ "fromAccount"
    ∷ "toAccount" ∷ "memo" ∷ "stellarLedger" ∷ "stellarTimestamp" ∷ "explorerUrl" ∷ "createdAt" ∷ []

abbrev pub analytics_keys : List String
analytics_keys =
    "userId" ∷ "totalVaults" ∷ "activeVaults" ∷ "completedVaults" ∷ "totalAmount" ∷ "exportedAt"
    ∷ []

-- CSV_SCHEMAS: each header is the key of its column.
abbrev pub csv_schema : Section → List String
csv_schema vaults_section = vaults_keys
csv_schema transactions_section = transactions_keys
csv_schema analytics_section = analytics_keys

-- columns?.[sectionName]
abbrev pub section_columns : Option Columns → Section → Option (List String)
section_columns none s = none
section_columns (some c) vaults_section = some c.vaults_columns
section_columns (some c) transactions_section = some c.transactions_columns
section_columns (some c) analytics_section = some c.analytics_columns

-- The columns of a row that are allowed, in their order.
unfoldable pub filter_row : List String → Row → Row
filter_row [] row = []
filter_row (col ∷ cols) row =
    let rest = filter_row cols row in
    if is_some (lookup col row) then (col, field col row) ∷ rest else rest

unfoldable pub filter_section : Option (List String) → Option (List Row) → Option (List Row)
filter_section allowed none = none
filter_section none (some rows) = some rows
filter_section (some cols) (some rows) = some (map (filter_row cols) rows)

unfoldable pub filter_export_data : ExportData → Option Columns → ExportData
filter_export_data data_in columns = record {
  vaults = filter_section (section_columns columns vaults_section) data_in.vaults;
  transactions = filter_section (section_columns columns transactions_section) data_in.transactions;
  analytics = filter_section (section_columns columns analytics_section) data_in.analytics;
}

unfoldable pub filter_csv_schema : List String → Option (List String) → List String
filter_csv_schema schema none = schema
filter_csv_schema schema (some allowed) = filter (λ key. any (same key) allowed) schema

-- /^[=+\-@\t\r]/
unfoldable pub is_formula_code : ℕ → Bool
is_formula_code c = c == b'=' || c == b'+' || c == b'-' || c == b'@' || c == b'\t' || c == b'\r'

abbrev pub starts_formula : String → Bool
starts_formula String.[] = false
starts_formula (String.◌∷◌ c s) = is_formula_code (code c)

-- The cast of a text cell.
unfoldable pub cast_string : String → String
cast_string s = if starts_formula s then join "'" s else s

-- What a library call returns or throws.
pub data Outcome {ℓ} (A : Type ℓ) : Type ℓ where
  returned : A → Outcome A
  threw : String → Outcome A

infixl 10 ◌>>=◌
abbrev pub ◌>>=◌ {ℓ κ} : {A : Type ℓ} {B : Type κ} → Outcome A → (A → Outcome B) → Outcome B
returned a >>= f = f a
threw e >>= f = threw e

-- JSON.stringify of the data, and csvStringify with a cast of texts, both outside the program.
pub record Writers : Type 0 where
  pub json_stringify : ExportData → Outcome String
  pub csv_stringify : (String → String) → List String → List Row → Outcome String

-- The text of a file, or its stream of compressed rows.
pub record Serialized : Type 0 where
  pub buffer : Option String
  pub filename : String
  pub readable : Option ExportData

module _ (writers : Writers) where
  -- A section of the CSV text; one without rows is left out.
  unfoldable pub csv_section :
      String → List String → Option (List String) → Option (List Row) → Outcome String
  csv_section title schema allowed none = returned ""
  csv_section title schema allowed (some []) = returned ""
  csv_section title schema allowed (some (r ∷ rs)) = do
    body ← writers.csv_stringify cast_string (filter_csv_schema schema allowed) (r ∷ rs)
    returned (join (join "# " (join title "\n")) (join body "\n"))

  unfoldable pub csv_text : ExportData → Option Columns → Outcome String
  csv_text filtered columns = do
    v ← csv_section "VAULTS" vaults_keys (section_columns columns vaults_section) filtered.vaults
    t ←
        csv_section "TRANSACTIONS" transactions_keys (section_columns columns transactions_section)
          filtered.transactions
    a ←
        csv_section "ANALYTICS" analytics_keys (section_columns columns analytics_section)
          filtered.analytics
    returned (join "\u{feff}" (join v (join t a)))

  -- `stamp` is the time, without colons and dots.
  unfoldable pub serialize_export_data :
      ExportData → ExportFormat → Option Columns → String → Outcome Serialized
  serialize_export_data data_in json columns stamp = do
    body ← writers.json_stringify (filter_export_data data_in columns)
    returned (record {
      buffer = some body;
      filename = join "export-" (join stamp ".json");
      readable = none;
    })
  serialize_export_data data_in ndjson columns stamp = returned (record {
    buffer = none;
    filename = join "export-" (join stamp ".ndjson.gz");
    readable = some (filter_export_data data_in columns);
  })
  serialize_export_data data_in csv columns stamp = do
    body ← csv_text (filter_export_data data_in columns) columns
    returned (record {
      buffer = some body;
      filename = join "export-" (join stamp ".csv");
      readable = none;
    })
