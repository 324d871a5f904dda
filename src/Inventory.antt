-- ===== src/Inventory.antt =====
-- internal/agent/inventory: the agent's SQLite inventory. The tables and their constraints are
-- those of queries/migrate.sql, the statements those of the other files of queries/.
pub mod Steps
pub mod Journal
pub mod JournalLaws
pub mod JournalSteps
pub mod JournalReplay
pub mod JournalAnswers
pub mod JournalOutcomes
pub mod JournalPosts
pub mod Resources
pub mod ResourceLaws
use cluster_api_hypervisor.Common.{ℕ, String, Bool, true, false, List, [], ◌∷◌}
use cluster_api_hypervisor.Exec.{Result, ok, err, database, Exec}

pub data OperationState : Type 0 where
  intent completed failed : OperationState

-- Times are Unix seconds.
pub record Operation : Type 0 where
  pub installation_id : String
  pub owner_uid : String
  pub node_id : String
  pub key : String
  pub kind : String
  pub request_hash : String
  pub generation : ℕ
  pub state : OperationState
  pub result : String
  pub failure : String
  pub created_at : ℕ
  pub updated_at : ℕ

pub record Vm : Type 0 where
  pub installation_id : String
  pub owner_uid : String
  pub node_id : String
  pub unit : String
  pub generation : ℕ
  pub pid : ℕ
  pub disk : String
  pub api_socket : String
  pub vhost_socket : String
  pub network : String
  pub port : String
  pub mac : String
  pub ip : String

pub record NetworkResource : Type 0 where
  pub installation_id : String
  pub owner_uid : String
  pub node_id : String
  pub network : String
  pub port : String
  pub mac : String
  pub ip : String

pub record PublishedPort : Type 0 where
  pub installation_id : String
  pub owner_uid : String
  pub guest_port : ℕ
  pub host_port : ℕ

-- A row of the table `operations` of RecordOperation.
pub record OperationGeneration : Type 0 where
  pub installation_id : String
  pub owner_uid : String
  pub key : String
  pub generation : ℕ

-- The column `updated_at` of the last three tables is never read, and is left out.
pub record Tables : Type 0 where
  pub operations : List OperationGeneration
  pub journal : List Operation
  pub networks : List NetworkResource
  pub vms : List Vm
  pub ports : List PublishedPort

-- Store: the tables, the clock that `time.Now` reads, whether the connection enforces foreign keys
-- (`PRAGMA foreign_keys`), and which of the statements to come fail in SQLite (a full disk, a lock
-- that times out): the first entry is that of the next statement, and past the end none fails.
pub record Store : Type 0 where
  pub tables : Tables
  pub open tables use *
  pub now : ℕ
  pub foreign_keys : Bool
  pub faults : List Bool

-- What a statement does to the tables, and its result.
abbrev pub Query {ℓ} : Type ℓ → Type ℓ
Query A = Tables → Result A × Tables

abbrev pub run_query {ℓ} : {A : Type ℓ} → Query A → Store → Result A × Store
run_query q s = let (r, t) = q s.tables in (r, record s { tables = t })

-- A statement is atomic: one that fails writes nothing.
abbrev pub run_with {ℓ} : {A : Type ℓ} → List Bool → Query A → Store → Result A × Store
run_with [] q s = run_query q s
run_with (true ∷ later) q s = (err database, record s { faults = later })
run_with (false ∷ later) q s = run_query q (record s { faults = later })

unfoldable pub statement : {A : Type 0} → Query A → Exec Store A
statement q s = run_with s.faults q s

-- tx.Commit, BeginTx: a statement that reads and writes no row.
abbrev pub no_rows_touched : Query (Unit {0})
no_rows_touched t = (ok tt, t)
