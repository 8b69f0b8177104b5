-- ===== src/Gateway/Cancelled.antt =====
-- The race of a cancellation against the delivery of a turn.
use my_wio.Base.{ℕ, String, ◌≡◌, refl, Bool, true, false, some, ◌<>◌, str_eq, arith}
use my_wio.Store.Operations.{Operation, operation, is_active}
use my_wio.Store.Queue.{Db, Outcome, granted, refused, id_of_key, queue_resource_operation}
use my_wio.Store.Queue.Idempotency.{queue_names}
use my_wio.Store.Operations.Lifecycle.{finished_forever}
use my_wio.Gateway.Rounds.{marked-Writes}
use my_wio.Gateway.{
  Link, Codec, settle, woken_by, interrupt_threads, marked, turn_threads,
  queue_best_effort_interrupt, is_codex_turn_operation, is_cancelled,
}

module _ (codec : Codec) (meanwhile : Db → Db) (fresh : String) (now : ℕ) (server_id : String)
    (o : Operation) (l : Link) where
  abbrev settled : Link × Bool
  settled = settle codec meanwhile fresh now server_id o l

  -- The link behind the mark.
  abbrev pub behind_mark : Link
  behind_mark = marked codec meanwhile fresh now o l

  -- The request that a cancelled Codex turn of a thread leads to.
  abbrev pub codex_request : String → String → Db × Outcome String
  codex_request thread_id codex_thread =
      queue_resource_operation meanwhile fresh now server_id "codex.turn.interrupt"
        (codec.interrupt_turn thread_id codex_thread) ("codex-cancel:" <> o.id)
        (record {
          project_id = o.project_id;
          workspace_id = o.workspace_id;
          thread_id = o.thread_id;
        })
        false behind_mark.db

  settle-codex :
      {thread_id codex_thread : String}
      → is_codex_turn_operation o.kind ≡ true
      → turn_threads codec o.kind o.payload ≡ some (thread_id, codex_thread)
      → str_eq thread_id "" ≡ false
      → is_cancelled (operation o.id behind_mark.db.operations) ≡ true
      → settled ≡ (
        (woken_by codec meanwhile fresh now behind_mark (codex_request thread_id codex_thread)).0,
        true,
      )
  unfolding settle queue_best_effort_interrupt interrupt_threads
  settle-codex k t ne c = rw (c, k, t, ne) refl

  woken_names :
      (key : String) (r : Db × Outcome String) (i : String)
      → r.1 ≡ granted i
      → id_of_key key r.0.operations ≡ some i
      → ((woken_by codec meanwhile fresh now behind_mark r).0.woken ≡ true)
        × (id_of_key key (woken_by codec meanwhile fresh now behind_mark r).0.db.operations
            ≡ some i)
  unfolding woken_by
  woken_names key (db, granted i) j h names = (refl, names)
  woken_names key (db, refused e) j h names = absurd (ground arith)

  mark_kept :
      {row : Operation}
      → operation o.id l.db.operations ≡ some row
      → row.status ≡ "cancelled"
      → is_cancelled (operation o.id behind_mark.db.operations) ≡ true
  unfolding is_cancelled is_active
  mark_kept {row} e s =
      let mark = marked-Writes (λ _. true) codec meanwhile fresh now o l in
      let kept = finished_forever (λ _. true) o.id mark.0 e (rw s refl) in rw (kept, s) refl

  -- A Codex turn that was cancelled after it was sent and before the mark is interrupted: when the
  -- request for the interrupt is granted, the loop is woken, and the key of this turn's interrupt
  -- names an operation, so that a repeated request adds no other.
  pub cancelled_turn_interrupted :
      {row : Operation} {thread_id codex_thread i : String}
      → is_codex_turn_operation o.kind ≡ true
      → turn_threads codec o.kind o.payload ≡ some (thread_id, codex_thread)
      → str_eq thread_id "" ≡ false
      → operation o.id l.db.operations ≡ some row
      → row.status ≡ "cancelled"
      → (codex_request thread_id codex_thread).1 ≡ granted i
      → (settled.0.woken ≡ true)
        × (id_of_key ("codex-cancel:" <> o.id) settled.0.db.operations ≡ some i)
  cancelled_turn_interrupted {i = i} k t ne e s g = rw (settle-codex k t ne (mark_kept e s)) (
      woken_names ("codex-cancel:" <> o.id) _ i g
        (queue_names meanwhile fresh now server_id _ _ _ _ _ behind_mark.db g))

  -- A turn that was not cancelled is only marked: no interrupt is queued and the loop goes on.
  pub uncancelled_turn_marked :
      is_cancelled (operation o.id behind_mark.db.operations) ≡ false
      → settled ≡ (behind_mark, true)
  unfolding settle
  uncancelled_turn_marked c = ground arith
