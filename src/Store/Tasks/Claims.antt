-- ===== src/Store/Tasks/Claims.antt =====
-- Claims of scheduled tasks: two workers that read the same due task do not both run it.
use my_wio.Base.{
  ℕ, ◌+◌, ◌<◌, String, ◌≡◌, ◌∙◌, ap, refl, Bool, false, ◌&&◌, Option, none, some, List, [], ◌∷◌,
  ◌++◌, map, str_eq, leb, ltb, if◌then◌else◌, find_first, any, arith, Option-cases, inl, inr,
}
use my_wio.Store.Table.{update_where, affected, update_where_none, affected_again, any-update_where}
use my_wio.Store.Tasks.{
  Task, AgentKind, codex, gemini, claude, TaskTables, table, set_table, ScheduledTask, codex_row,
  gemini_row, claude_row, scheduled_task_select, scheduled_task, kind_of, scheduled_table_for_id,
  update_task, claim_scheduled_task,
}

-- The table that an id is found in.
unfoldable owner : String → TaskTables → Option AgentKind
owner id t =
    if any (λ r. str_eq r.id id) t.codex_tasks
    then some codex
    else if any (λ r. str_eq r.id id) t.gemini_tasks
    then some gemini
    else if any (λ r. str_eq r.id id) t.claude_tasks
    then some claude
    else none

kind_of_find :
    (id : String) (kind : AgentKind) (f : Task → ScheduledTask) (rows : List Task)
    (rest : List ScheduledTask)
    → ((r : Task) → (f r).agent_kind ≡ kind)
    → ((r : Task) → str_eq (f r).task.id id ≡ str_eq r.id id)
    → kind_of (find_first (λ s. str_eq s.task.id id) (map f rows ++ rest)) ≡ (
        if any (λ r. str_eq r.id id) rows
        then some kind
        else kind_of (find_first (λ s. str_eq s.task.id id) rest))
kind_of_find id kind f [] rest own same = refl
kind_of_find id kind f (r ∷ rows) rest own same =
    ground (arith, own r, same r, kind_of_find id kind f rows rest own same)

kind_of_find_last :
    (id : String) (kind : AgentKind) (f : Task → ScheduledTask) (rows : List Task)
    → ((r : Task) → (f r).agent_kind ≡ kind)
    → ((r : Task) → str_eq (f r).task.id id ≡ str_eq r.id id)
    → kind_of (find_first (λ s. str_eq s.task.id id) (map f rows))
      ≡ (if any (λ r. str_eq r.id id) rows then some kind else none)
kind_of_find_last id kind f [] own same = refl
kind_of_find_last id kind f (r ∷ rows) own same =
    ground (arith, own r, same r, kind_of_find_last id kind f rows own same)

scheduled_table_for_id-eq-owner :
    (id : String) (t : TaskTables) → scheduled_table_for_id id t ≡ owner id t
unfolding scheduled_table_for_id scheduled_task scheduled_task_select owner
scheduled_table_for_id-eq-owner id t =
    kind_of_find id codex codex_row t.codex_tasks
      (map gemini_row t.gemini_tasks ++ map claude_row t.claude_tasks) (λ r. refl) (λ r. refl)
    ∙ ap (λ k. if any (λ r. str_eq r.id id) t.codex_tasks then some codex else k)
        (kind_of_find id gemini gemini_row t.gemini_tasks (map claude_row t.claude_tasks)
            (λ r. refl) (λ r. refl)
          ∙ ap (λ k. if any (λ r. str_eq r.id id) t.gemini_tasks then some gemini else k)
              (kind_of_find_last id claude claude_row t.claude_tasks (λ r. refl) (λ r. refl)))

table-set_table :
    (kind : AgentKind) (rows : List Task) (t : TaskTables)
    → table kind (set_table kind rows t) ≡ rows
unfolding table set_table
table-set_table codex rows t = refl
table-set_table gemini rows t = refl
table-set_table claude rows t = refl

set_table-table : (kind : AgentKind) (t : TaskTables) → set_table kind (table kind t) t ≡ t
unfolding table set_table
set_table-table codex t = refl
set_table-table gemini t = refl
set_table-table claude t = refl

-- An update that keeps the ids keeps the table of every id.
owner_update :
    (id : String) (kind : AgentKind) (p : Task → Bool) (f : Task → Task) (t : TaskTables)
    → ((r : Task) → (f r).id ≡ r.id)
    → owner id (set_table kind (update_where p f (table kind t)) t) ≡ owner id t
unfolding owner table set_table
owner_update id codex p f t same =
    rw
      (any-update_where (λ r. str_eq r.id id) p f t.codex_tasks
        (λ r. ap (λ i. str_eq i id) (same r)))
      refl
owner_update id gemini p f t same =
    rw
      (any-update_where (λ r. str_eq r.id id) p f t.gemini_tasks
        (λ r. ap (λ i. str_eq i id) (same r)))
      refl
owner_update id claude p f t same =
    rw
      (any-update_where (λ r. str_eq r.id id) p f t.claude_tasks
        (λ r. ap (λ i. str_eq i id) (same r)))
      refl

claimable : String → ℕ → Task → Bool
claimable id expected r = str_eq r.id id && (r.enabled && leb r.next_run_at (expected + 1))

abbrev claimed : ℕ → ℕ → Task → Task
claimed next now r = record r { next_run_at = next; updated_at = now }

moved_on :
    (id : String) (expected next now : ℕ) (r : Task)
    → expected + 1 < next
    → claimable id expected (claimed next now r) ≡ false
unfolding claimable
moved_on id expected next now r h = ground arith

claim_found :
    (id : String) (expected next now : ℕ) (kind : AgentKind) (t : TaskTables)
    → owner id t ≡ some kind
    → claim_scheduled_task id expected next now t
      ≡ some (
        set_table kind (update_where (claimable id expected) (claimed next now) (table kind t)) t,
        ltb 0 (affected (claimable id expected) (table kind t)),
      )
unfolding claim_scheduled_task update_task claimable
claim_found id expected next now kind t h = ground (arith, scheduled_table_for_id-eq-owner id t)

claim_missing :
    (id : String) (expected next now : ℕ) (t : TaskTables)
    → owner id t ≡ none
    → claim_scheduled_task id expected next now t ≡ none
unfolding claim_scheduled_task update_task
claim_missing id expected next now t h = ground (arith, scheduled_table_for_id-eq-owner id t)

-- After one worker has tried to claim a task for the time at which it read it, moving the task on to
-- more than a nanosecond after that time, a worker that read the task at the same time cannot claim
-- it, and changes nothing.
pub claim_scheduled_task_once :
    (id : String) (expected next next' now now' : ℕ) (t t' : TaskTables) {won : Bool}
    → expected + 1 < next
    → claim_scheduled_task id expected next now t ≡ some (t', won)
    → claim_scheduled_task id expected next' now' t' ≡ some (t', false)
claim_scheduled_task_once id expected next next' now now' t t' later h =
    elim (Option-cases (owner id t)) [
      | inl e ↦ absurd (ground (arith, claim_missing id expected next now t e))
      | inr (kind, e) ↦ again kind e
    ]
  where
    again :
        (kind : AgentKind)
        → owner id t ≡ some kind
        → claim_scheduled_task id expected next' now' t' ≡ some (t', false)
    again kind e =
        let rows = update_where (claimable id expected) (claimed next now) (table kind t) in
        let same : t' ≡ set_table kind rows t =
          ground (arith, claim_found id expected next now kind t e) in
        let idle : affected (claimable id expected) (table kind (set_table kind rows t)) ≡ 0 =
          rw (table-set_table kind rows t) (
            affected_again (claimable id expected) (claimable id expected) (claimed next now)
              (table kind t) (λ r m. moved_on id expected next now r later) (λ r h. h)) in
        let owned : owner id (set_table kind rows t) ≡ some kind =
          owner_update id kind (claimable id expected) (claimed next now) t (λ r. refl) ∙ e in
        rw same (
          claim_found id expected next' now' kind (set_table kind rows t) owned
          ∙ rw
              (
                update_where_none (claimable id expected) (claimed next' now')
                    (table kind (set_table kind rows t)) idle,
                idle,
                set_table-table kind (set_table kind rows t),
              )
              refl)
