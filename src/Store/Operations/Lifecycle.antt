-- ===== src/Store/Operations/Lifecycle.antt =====
-- The life of an operation under the statements of Steps: it only moves forward, and a row that is not
-- active is never written again.
use my_wio.Base.{String, ◌≤◌, ◌≡◌, refl, ap, subst, Bool, false, Option, none, some, List}
use my_wio.Store.Operations.{Operation, is_active, operation}
use my_wio.Store.Operations.Rows.{FollowsRow, FollowsRow-refl, FollowsRow-trans, stage}
use my_wio.Store.Operations.Steps.{Step, Step-FollowsRow}

-- The tables that any number of statements reach from a table.
pub data Reach (json_valid : String → Bool) (ops : List Operation) : List Operation → Type 0 where
  here : Reach json_valid ops ops
  next :
      {mid after : List Operation}
      → Reach json_valid ops mid
      → Step json_valid mid after
      → Reach json_valid ops after

module _ (json_valid : String → Bool) where
  pub Reach-FollowsRow :
      {ops ops' : List Operation}
      → Reach json_valid ops ops'
      → (j : String) → FollowsRow (operation j ops) (operation j ops')
  Reach-FollowsRow {ops = ops} here j = FollowsRow-refl (operation j ops)
  Reach-FollowsRow {ops = ops} (next {mid = mid} {after = after} r st) j =
      FollowsRow-trans (operation j ops) (operation j mid) (operation j after)
        (Reach-FollowsRow r j) (Step-FollowsRow json_valid st j)

  -- A finished operation is never written again: whatever statements run later (new operations with
  -- new ids, late deliveries and starts, results with a final status, cancellations), its row stays
  -- as it is.
  pub finished_forever :
      {ops ops' : List Operation} (j : String) {o : Operation}
      → Reach json_valid ops ops'
      → operation j ops ≡ some o
      → is_active o.status ≡ false
      → operation j ops' ≡ some o
  finished_forever {ops' = ops'} j {o} r e h =
      settled (operation j ops')
        (subst (λ row. FollowsRow row (operation j ops')) e (Reach-FollowsRow r j))
    where
      settled : (row : Option Operation) → FollowsRow (some o) row → row ≡ some o
      settled none f = elim f [ ]
      settled (some o') f = ap some (f.finished_stays h)

  -- As long as the only statements that run are those of Steps (new operations with new ids, claims,
  -- deliveries, starts, results with a status that is not active, cancellations), none of which deletes
  -- rows, an operation that is queued or later only moves forward, by delivered and running, to where
  -- none of these statements writes its row: the row stays, with its key and its payload.
  pub operation_moves_forward :
      {ops ops' : List Operation} (j : String) {o : Operation}
      → Reach json_valid ops ops'
      → operation j ops ≡ some o
      → (o' : Operation) × (operation j ops' ≡ some o')
        × (stage o.status ≤ stage o'.status)
        × (o'.idempotency_key ≡ o.idempotency_key)
        × (o'.payload ≡ o.payload)
  operation_moves_forward {ops' = ops'} j {o} r e =
      moved (operation j ops') refl
        (subst (λ row. FollowsRow row (operation j ops')) e (Reach-FollowsRow r j))
    where
      moved :
          (row : Option Operation)
          → operation j ops' ≡ row
          → FollowsRow (some o) row
          → (o' : Operation) × (operation j ops' ≡ some o')
            × (stage o.status ≤ stage o'.status)
            × (o'.idempotency_key ≡ o.idempotency_key)
            × (o'.payload ≡ o.payload)
      moved none e f = elim f [ ]
      moved (some o') e f = (o', e, f.forward, f.same_key, f.same_payload)

  pub Reach-trans :
      {a b c : List Operation} → Reach json_valid a b → Reach json_valid b c → Reach json_valid a c
  Reach-trans r here = r
  Reach-trans r (next s st) = next (Reach-trans r s) st
