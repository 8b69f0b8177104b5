-- ===== src/Store/Queue.antt =====
-- internal/store/store.go: queueing an Agent operation under an idempotency key, with the constraints
-- that internal/store/schema.sql and the migrations put on the table.
pub mod Idempotency
pub mod Statements
pub mod Exclusion
use text.Mathlib.Text.{starts_with}
use my_wio.Base.{
  ℕ, String, Bool, true, false, ◌&&◌, ◌||◌, not, Option, none, some, List, [], ◌∷◌, str_eq,
  if◌then◌else◌, find_first, any, ◌≡◌, refl,
}
use my_wio.Store.Operations.{Operation, is_active, refers, operation, has_active_workspace_write}

pub record WorkspaceRow : Type 0 where
  pub id : String
  pub project_id : String
  pub server_id : String

pub record ThreadRow : Type 0 where
  pub id : String
  pub workspace_id : String

-- The tables that the queue reads and writes.
pub record Db : Type 0 where
  pub operations : List Operation
  pub servers : List String
  pub projects : List String
  pub workspaces : List WorkspaceRow
  pub threads : List ThreadRow

pub record OperationResource : Type 0 where
  pub project_id : String
  pub workspace_id : String
  pub thread_id : String

pub data QueueError : Type 0 where
  no_rows thread_of_other_server thread_of_other_workspace thread_of_other_project : QueueError
  workspace_of_other_server workspace_of_other_project : QueueError
  write_requires_workspace workspace_write_active constraint_failed unsupported_vault_format :
      QueueError

pub data Outcome (A : Type 0) : Type 0 where
  granted : A → Outcome A
  refused : QueueError → Outcome A

abbrev pub workspace : String → Db → Option WorkspaceRow
workspace id db = find_first (λ w. str_eq w.id id) db.workspaces

abbrev pub thread : String → Db → Option ThreadRow
thread id db = find_first (λ t. str_eq t.id id) db.threads

-- `codex_threads t JOIN workspaces w`.
abbrev pub thread_workspace : String → Db → Option WorkspaceRow
thread_workspace id db = elim (thread id db) [ none ↦ none | some t ↦ workspace t.workspace_id db ]

resolve_thread : String → OperationResource → WorkspaceRow → Outcome OperationResource
resolve_thread server_id resource w =
    if not (str_eq w.server_id server_id)
    then refused thread_of_other_server
    else if not (str_eq resource.workspace_id "") && not (str_eq resource.workspace_id w.id)
    then refused thread_of_other_workspace
    else if not (str_eq resource.project_id "") && not (str_eq resource.project_id w.project_id)
    then refused thread_of_other_project
    else granted (record resource { workspace_id = w.id; project_id = w.project_id })

resolve_workspace : String → OperationResource → WorkspaceRow → Outcome OperationResource
resolve_workspace server_id resource w =
    if not (str_eq w.server_id server_id)
    then refused workspace_of_other_server
    else if not (str_eq resource.project_id "") && not (str_eq resource.project_id w.project_id)
    then refused workspace_of_other_project
    else granted (record resource { project_id = w.project_id })

-- `resolveOperationResource`.
unfoldable pub resolve_operation_resource :
    String → OperationResource → Db → Outcome OperationResource
unfolding resolve_thread resolve_workspace
resolve_operation_resource server_id resource db =
    if not (str_eq resource.thread_id "")
    then elim (thread_workspace resource.thread_id db) [
      | none ↦ refused no_rows
      | some w ↦ resolve_thread server_id resource w
    ]
    else if not (str_eq resource.workspace_id "")
    then elim (workspace resource.workspace_id db) [
      | none ↦ refused no_rows
      | some w ↦ resolve_workspace server_id resource w
    ]
    else if not (str_eq resource.project_id "")
        && not (any (λ p. str_eq p resource.project_id) db.projects)
    then refused no_rows
    else granted resource

-- `SELECT id FROM agent_operations WHERE idempotency_key=?`.
unfoldable pub id_of_key : String → List Operation → Option String
id_of_key key ops = elim (find_first (λ o. str_eq o.idempotency_key key) ops) [
  | none ↦ none
  | some o ↦ some o.id
]

-- The partial unique index `operations_workspace_active_write_unique`.
unfoldable pub holds_write : Operation → Bool
holds_write o = not (str_eq o.workspace_id "") && o.workspace_write && is_active o.status

-- The partial unique index `operations_project_import_active_unique`.
unfoldable pub holds_import : Operation → Bool
holds_import o =
    not (str_eq o.project_id "")
    && str_eq o.kind "git.import"
    && (str_eq o.status "queued" || str_eq o.status "delivered")

-- Two rows that the unique constraints of the table do not allow together.
unfoldable pub clash : Operation → Operation → Bool
clash o p =
    str_eq o.id p.id
    || str_eq o.idempotency_key p.idempotency_key
    || (holds_write o && holds_write p && str_eq o.workspace_id p.workspace_id)
    || (holds_import o
        && holds_import p
        && str_eq o.server_id p.server_id
        && str_eq o.project_id p.project_id)

-- The foreign keys of a row.
refers_to_rows : Operation → Db → Bool
refers_to_rows o db =
    any (λ s. str_eq s o.server_id) db.servers
    && (str_eq o.project_id "" || any (λ p. str_eq p o.project_id) db.projects)
    && (str_eq o.workspace_id "" || any (λ w. str_eq w.id o.workspace_id) db.workspaces)
    && (str_eq o.thread_id "" || any (λ t. str_eq t.id o.thread_id) db.threads)

-- `INSERT INTO agent_operations … ON CONFLICT(idempotency_key) DO NOTHING`: `none` is a violated
-- constraint.
unfoldable pub insert_operation : Operation → Db → Option Db
unfolding refers_to_rows
insert_operation o db =
    if any (λ p. str_eq p.idempotency_key o.idempotency_key) db.operations
    then some db
    else if any (clash o) db.operations || not (refers_to_rows o db)
    then none
    else some (record db { operations = o ∷ db.operations })

-- The row that `queueOperationPayload` inserts, with the defaults of the other columns.
unfoldable pub new_operation :
    (id server_id kind payload key : String) → OperationResource → Bool → ℕ → Operation
new_operation id server_id kind payload key resource write now = record {
  id = id;
  server_id = server_id;
  project_id = resource.project_id;
  workspace_id = resource.workspace_id;
  thread_id = resource.thread_id;
  kind = kind;
  payload = payload;
  status = "queued";
  workspace_write = write;
  idempotency_key = key;
  result = "";
  result_data = "{}";
  created_at = now;
  delivered_at = none;
  started_at = none;
  completed_at = none;
}

-- What the code makes of the outcome of its INSERT.
unfoldable pub after_insert : String → String → Bool → Db → Option Db → Db × Outcome String
after_insert key workspace_id write db none = (
  db,
  elim (id_of_key key db.operations) [
    | some existing ↦ granted existing
    | none ↦
        if write && has_active_workspace_write workspace_id db.operations
        then refused workspace_write_active
        else refused constraint_failed
  ],
)
after_insert key workspace_id write db (some db') = (
  db',
  elim (id_of_key key db'.operations) [ some existing ↦ granted existing | none ↦ refused no_rows ],
)

unfoldable pub insert_resolved :
    (id server_id kind payload key : String)
    → Bool
    → ℕ
    → Db
    → OperationResource
    → Db × Outcome String
insert_resolved id server_id kind payload key write now db resolved =
    if write && str_eq resolved.workspace_id ""
    then (db, refused write_requires_workspace)
    else after_insert key resolved.workspace_id write db
        (insert_operation (new_operation id server_id kind payload key resolved write now) db)

-- `queueOperationPayload`. The key is looked up in a transaction of its own: `meanwhile` is what
-- other connections commit between that look and the INSERT. `id` is the fresh `NewID`.
module _ (meanwhile : Db → Db) (id : String) (now : ℕ) where
  unfoldable pub queue_operation_payload :
      (server_id kind payload key : String) → OperationResource → Bool → Db → Db × Outcome String
  queue_operation_payload server_id kind payload key resource write db =
      elim (id_of_key key db.operations) [
        | some existing ↦ (db, granted existing)
        | none ↦ elim (resolve_operation_resource server_id resource db) [
          | refused e ↦ (db, refused e)
          | granted resolved ↦
              insert_resolved id server_id kind payload key write now (meanwhile db) resolved
        ]
      ]

  -- `QueueResourceOperation`, whose payload is the JSON of a command, and `QueueOperation`.
  abbrev pub queue_resource_operation :
      (server_id kind payload key : String) → OperationResource → Bool → Db → Db × Outcome String
  queue_resource_operation = queue_operation_payload

  abbrev pub no_resource : OperationResource
  no_resource = record { project_id = ""; workspace_id = ""; thread_id = "" }

  abbrev pub queue_operation : (server_id kind payload key : String) → Db → Db × Outcome String
  queue_operation server_id kind payload key =
      queue_operation_payload server_id kind payload key no_resource false

  -- `QueueEncryptedResourceOperation` and `QueueEncryptedOperation`.
  unfoldable pub queue_encrypted_resource_operation :
      (server_id kind ciphertext key : String) → OperationResource → Db → Db × Outcome String
  queue_encrypted_resource_operation server_id kind ciphertext key resource db =
      if not (starts_with ciphertext "v1:")
      then (db, refused unsupported_vault_format)
      else queue_operation_payload server_id kind ciphertext key resource false db

  abbrev pub queue_encrypted_operation :
      (server_id kind ciphertext key : String) → Db → Db × Outcome String
  queue_encrypted_operation server_id kind ciphertext key =
      queue_encrypted_resource_operation server_id kind ciphertext key no_resource
