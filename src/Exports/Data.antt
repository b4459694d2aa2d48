-- ===== src/Exports/Data.antt =====
-- The rows and the texts of an export, in src/services/exportQueue.ts.
pub mod Serializing
use disciplr_backend.Prelude.{
  ℕ, zero, suc, ◌+◌, String, Bool, true, false, ◌||◌, Option, none, some, List, [], ◌∷◌, map, leb,
  if◌then◌else◌, filter, length, same, is_empty, join, Dict, lookup,
}
use disciplr_backend.Exports.{
  ExportScope, vaults_scope, transactions_scope, analytics_scope, all_scope, Section,
  vaults_section, transactions_section, analytics_section,
}

-- The values of a row: what is missing is `undefined`.
pub data Value : Type 0 where
  undefined null : Value
  text : String → Value
  number : ℕ → Value

abbrev pub Row : Type 0
Row = Dict Value

-- row.key
unfoldable pub field : String → Row → Value
field key row = elim (lookup key row) [ none ↦ undefined | some v ↦ v ]

-- v ?? w
abbrev pub coalesce : Value → Value → Value
coalesce undefined w = w
coalesce null w = w
coalesce (text s) w = text s
coalesce (number n) w = number n

-- v === s
abbrev pub equals_text : Value → String → Bool
equals_text undefined s = false
equals_text null s = false
equals_text (text t) s = same t s
equals_text (number n) s = false

pub record ExportData : Type 0 where
  pub vaults : Option (List Row)
  pub transactions : Option (List Row)
  pub analytics : Option (List Row)

abbrev pub section : Section → ExportData → Option (List Row)
section vaults_section d = d.vaults
section transactions_section d = d.transactions
section analytics_section d = d.analytics

-- vault.creator === userId || vault.user_id === userId
unfoldable pub is_of_user : String → Row → Bool
is_of_user user_id vault =
    equals_text (field "creator" vault) user_id || equals_text (field "user_id" vault) user_id

-- The test of userId is for being there and not empty.
unfoldable pub user_vaults : Option String → List Row → List Row
user_vaults none store = store
user_vaults (some user_id) store =
    if is_empty user_id then store else filter (is_of_user user_id) store

unfoldable pub exported_vault : Row → Row
exported_vault vault =
    ("id", field "id" vault)
    ∷ ("creator", coalesce (field "creator" vault) (field "user_id" vault))
    ∷ ("amount", field "amount" vault)
    ∷ ("status", field "status" vault)
    ∷ (
      "startDate",
      coalesce (field "startDate" vault) (coalesce (field "start_date" vault) (text "")),
    )
    ∷ ("endDate", coalesce (field "endDate" vault) (coalesce (field "end_date" vault) (text "")))
    ∷ ("verifier", coalesce (field "verifier" vault) (text ""))
    ∷ (
      "successDestination",
      coalesce (field "successDestination" vault)
          (coalesce (field "success_destination" vault) (text "")),
    )
    ∷ (
      "failureDestination",
      coalesce (field "failureDestination" vault)
          (coalesce (field "failure_destination" vault) (text "")),
    )
    ∷ (
      "createdAt",
      coalesce (field "createdAt" vault) (coalesce (field "created_at" vault) (text "")),
    )
    ∷ []

-- userId ?? 'all'
abbrev pub user_or_all : Option String → String
user_or_all none = "all"
user_or_all (some user_id) = user_id

unfoldable pub has_status : String → Row → Bool
has_status status vault = equals_text (field "status" vault) status

-- What of the three sections the scope asks for.
unfoldable pub scoped : ExportScope → (vaults transactions analytics : List Row) → ExportData
scoped vaults_scope v t a = record { vaults = some v; transactions = none; analytics = none }
scoped transactions_scope v t a = record { vaults = none; transactions = some t; analytics = none }
scoped analytics_scope v t a = record { vaults = none; transactions = none; analytics = some a }
scoped all_scope v t a = record { vaults = some v; transactions = some t; analytics = some a }

-- What JavaScript and its locale fix: the order of localeCompare, the text of a value in a template
-- or in String(…), and the number that Number(…) makes of an amount, here a whole one.
pub record Platform : Type 0 where
  pub locale_leb : String → String → Bool
  pub text_of : Value → String
  pub number_of : Value → ℕ

module _ (platform : Platform) where
  -- String(vault.createdAt ?? '')
  unfoldable pub sort_key : Row → String
  sort_key vault = platform.text_of (coalesce (field "createdAt" vault) (text ""))

  unfoldable pub insert_row : Row → List Row → List Row
  insert_row r [] = r ∷ []
  insert_row r (x ∷ xs) =
      let rest = insert_row r xs in
      if platform.locale_leb (sort_key r) (sort_key x) then r ∷ x ∷ xs else x ∷ rest

  unfoldable pub sort_rows : List Row → List Row
  sort_rows [] = []
  sort_rows (x ∷ xs) = insert_row x (sort_rows xs)

  unfoldable pub synthetic_transaction : Option String → Row → Row
  synthetic_transaction user_id vault =
      ("id", text (join "synthetic-" (platform.text_of (field "id" vault))))
      ∷ ("userId", text (user_or_all user_id))
      ∷ ("vaultId", field "id" vault)
      ∷ ("txHash", text "")
      ∷ ("type", text "deposit")
      ∷ ("amount", field "amount" vault)
      ∷ ("assetCode", text "XLM")
      ∷ ("fromAccount", text "")
      ∷ ("toAccount", text "")
      ∷ ("memo", text "")
      ∷ ("stellarLedger", text "")
      ∷ ("stellarTimestamp", field "createdAt" vault)
      ∷ ("explorerUrl", text "")
      ∷ ("createdAt", field "createdAt" vault)
      ∷ []

  unfoldable pub total_amount : List Row → ℕ
  total_amount [] = 0
  total_amount (v ∷ vs) =
      platform.number_of (coalesce (field "amount" v) (number 0)) + total_amount vs

  unfoldable pub analytics_row : Option String → String → List Row → Row
  analytics_row user_id now vaults =
      ("userId", text (user_or_all user_id))
      ∷ ("totalVaults", number (length vaults))
      ∷ ("activeVaults", number (length (filter (has_status "active") vaults)))
      ∷ ("completedVaults", number (length (filter (has_status "completed") vaults)))
      ∷ ("totalAmount", number (total_amount vaults))
      ∷ ("exportedAt", text now)
      ∷ []

  unfoldable pub build_export_data_from_vault_store :
      ExportScope → Option String → List Row → String → ExportData
  build_export_data_from_vault_store scope user_id store now =
      let vaults = map exported_vault (sort_rows (user_vaults user_id store)) in
      scoped scope vaults (map (synthetic_transaction user_id) vaults)
        (analytics_row user_id now vaults ∷ [])

  -- The rows of the two tables are given as the queries return them, for the user if there is one.
  unfoldable pub build_export_data_from_database :
      ExportScope
      → Option String
      → (vault_rows transaction_rows : Option String → List Row) → String
      → ExportData
  build_export_data_from_database scope user_id vault_rows transaction_rows now =
      let vaults = vault_rows user_id in
      scoped scope vaults (transaction_rows user_id) (analytics_row user_id now vaults ∷ [])
