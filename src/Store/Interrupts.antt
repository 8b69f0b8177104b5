-- ===== src/Store/Interrupts.antt =====
-- internal/store/operation_interrupt.go: the request to interrupt an operation that runs.
pub mod Latest
pub mod Repeats
use Prim.Native.Nat.{Ordering}
use Prim.Native.String.{compare}
use my_wio.Base.{
  ℕ, String, Bool, true, false, ◌&&◌, ◌||◌, not, Option, none, some, List, [], ◌∷◌, ◌++◌, str_eq,
  ltb, ◌==◌, if◌then◌else◌, keep, any, ◌<>◌,
}
use my_wio.Text.{Text, codes, has_prefix}
use my_wio.Store.Table.{order_by, affected}
use my_wio.Store.Operations.{Operation, is_active, operation}
use my_wio.Store.Queue.{clash, new_operation}

-- `protocol.CanInterruptOperation`.
unfoldable pub can_interrupt_operation : String → Bool
can_interrupt_operation kind =
    str_eq kind "git.workspace.inspect"
    || str_eq kind "inventory.scan"
    || str_eq kind "workspace.files"
    || str_eq kind "workspace.changes"
    || str_eq kind "workspace.file.preview"
    || str_eq kind "workspace.diff.preview"

-- `ErrOperationNotActive`, the refusal of other kinds, and a violated constraint.
pub data InterruptError : Type 0 where
  operation_not_active not_interruptible insert_failed : InterruptError

pub data Request : Type 0 where
  interrupts : String → Request
  fails : InterruptError → Request

abbrev pub interrupt_prefix : String → String
interrupt_prefix id = "operation-interrupt:" <> id <> ":"

-- `idempotency_key>=? AND idempotency_key<?`: the keys that begin with the prefix, since the
-- character after `:` is `;`.
unfoldable pub is_interrupt_of : String → Operation → Bool
is_interrupt_of id o =
    str_eq o.kind "operation.interrupt"
    && has_prefix (codes o.idempotency_key) (codes (interrupt_prefix id))

unfoldable pub is_greater : String → String → Bool
is_greater a b = elim (compare a b) [ Ordering.gt ↦ true | _ ↦ false ]

-- `ORDER BY created_at DESC,id DESC`.
unfoldable pub is_newer_interrupt : Operation → Operation → Bool
is_newer_interrupt a b =
    ltb b.created_at a.created_at || (a.created_at == b.created_at && is_greater a.id b.id)

unfoldable pub latest_interrupt : String → List Operation → Option Operation
latest_interrupt id ops = elim (order_by is_newer_interrupt (keep (is_interrupt_of id) ops)) [
  | [] ↦ none
  | o ∷ _ ↦ some o
]

-- The row refers to what its target refers to, so that its foreign keys hold.
unfoldable pub insert_interrupt : Operation → List Operation → List Operation × Request
insert_interrupt o ops =
    if any (clash o) ops then (ops, fails insert_failed) else (o ∷ ops, interrupts o.id)

-- `encode` is the JSON of the command, `fresh` the new id.
module _ (encode : String → String → String) (fresh : String) (now : ℕ) where
  unfoldable pub interrupt_row : Operation → String → Operation
  interrupt_row target previous_id =
      new_operation fresh target.server_id "operation.interrupt" (encode target.id target.kind)
        (interrupt_prefix target.id <> previous_id)
        (record {
          project_id = target.project_id;
          workspace_id = target.workspace_id;
          thread_id = "";
        })
        false now

  unfoldable pub request_after :
      Operation → List Operation → Option Operation → List Operation × Request
  request_after target ops none = insert_interrupt (interrupt_row target "") ops
  request_after target ops (some previous) =
      if is_active previous.status
      then (ops, interrupts previous.id)
      else insert_interrupt (interrupt_row target previous.id) ops

  -- `RequestOperationInterrupt`.
  unfoldable pub request_operation_interrupt : String → List Operation → List Operation × Request
  request_operation_interrupt id ops =
      if affected (λ o. str_eq o.id id && is_active o.status) ops == 0
      then (ops, fails operation_not_active)
      else elim (operation id ops) [
        | none ↦ (ops, fails operation_not_active)
        | some target ↦
            if not (can_interrupt_operation target.kind) || target.workspace_write
            then (ops, fails not_interruptible)
            else request_after target ops (latest_interrupt id ops)
      ]
