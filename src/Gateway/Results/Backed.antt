-- ===== src/Gateway/Results/Backed.antt =====
-- internal/agentgateway/gateway.go: calls of a handler in which every published success is backed by a
-- call of the store.
use my_wio.Base.{
  Bool, true, false, ◌||◌, ◌&&◌, not, Option, none, some, List, [], ◌∷◌, ◌++◌, ◌≡◌, refl, arith,
  Option-cases, inl, inr,
}
use my_wio.Store.Operations.{OperationResult}
use my_wio.Gateway.Results.{
  Snapshot, Fork, codex_fork, claude_fork, gemini_fork, worktree, Call, completes_deletion,
  completes_file_scan, completes_codex_snapshot, completes_operation, completes_credentials,
  completes_if_active, publishes, commits_transaction, Answers, attempt_call, publish_result,
}
use my_wio.Gateway.Results.Stages.{
  Forwarded, succeeded, save_snapshot, commit_fork, complete_and_publish, continue_stage,
}

-- A call of the store with a success of an operation that returns no error and, where it answers
-- whether the row took the result, that the row did: scans, snapshots of Codex and claimed turns. The
-- other completions return no error either for a row that is finished already.
unfoldable pub acknowledges : Answers → Call → Bool
acknowledges a (commits_transaction t r) = a.succeeds (commits_transaction t r) && succeeded r
acknowledges a (completes_deletion r) = a.succeeds (completes_deletion r) && succeeded r
acknowledges a (completes_file_scan r) =
    a.succeeds (completes_file_scan r) && a.completes (completes_file_scan r) && succeeded r
acknowledges a (completes_operation r) = a.succeeds (completes_operation r) && succeeded r
acknowledges a (completes_codex_snapshot t i r) =
    a.succeeds (completes_codex_snapshot t i r)
    && a.completes (completes_codex_snapshot t i r)
    && succeeded r
acknowledges a (completes_credentials agent r) =
    a.succeeds (completes_credentials agent r) && succeeded r
acknowledges a (completes_if_active r) =
    a.succeeds (completes_if_active r) && a.completes (completes_if_active r) && succeeded r
acknowledges a _ = false

unfoldable pub announces_success : Call → Bool
announces_success (publishes r) = succeeded r
announces_success _ = false

-- Every success that the calls publish stands behind a call that acknowledges one; `seen` says whether one
-- was made before them.
unfoldable pub is_backed : Answers → Bool → List Call → Bool
is_backed a seen [] = true
is_backed a seen (c ∷ calls) =
    (not (announces_success c) || seen) && is_backed a (seen || acknowledges a c) calls

-- No success is published.
unfoldable pub is_silent : List Call → Bool
is_silent [] = true
is_silent (c ∷ calls) = not (announces_success c) && is_silent calls

module _ (a : Answers) where
  -- Calls that publish no success may stand before calls that are backed.
  ++-is_backed :
      (made calls : List Call) (seen : Bool)
      → is_silent made ≡ true
      → ((now : Bool) → is_backed a now calls ≡ true)
      → is_backed a seen (made ++ calls) ≡ true
  unfolding is_backed is_silent
  ++-is_backed [] calls seen h rest = rest seen
  ++-is_backed (c ∷ made) calls seen h rest =
      let step = ++-is_backed made calls (seen || acknowledges a c) in ground (arith, step, rest)

  pub silent_calls-is_backed :
      (calls : List Call) (seen : Bool) → is_silent calls ≡ true → is_backed a seen calls ≡ true
  unfolding is_backed is_silent
  silent_calls-is_backed [] seen h = refl
  silent_calls-is_backed (c ∷ calls) seen h =
      let step = silent_calls-is_backed calls (seen || acknowledges a c) in ground (arith, step)

  complete_and_publish-is_backed :
      (which : Option Fork) (r : OperationResult) (seen : Bool)
      → is_backed a seen (complete_and_publish a which r).calls ≡ true
  unfolding complete_and_publish attempt_call publish_result is_backed acknowledges
      announces_success
  complete_and_publish-is_backed none r seen = ground arith
  complete_and_publish-is_backed (some codex_fork) r seen = ground arith
  complete_and_publish-is_backed (some claude_fork) r seen = ground arith
  complete_and_publish-is_backed (some gemini_fork) r seen = ground arith
  complete_and_publish-is_backed (some worktree) r seen = ground arith

  pub save_snapshot-is_silent :
      (kind : Snapshot) (r : OperationResult) → is_silent (save_snapshot a kind r).made ≡ true
  unfolding save_snapshot is_silent announces_success
  save_snapshot-is_silent kind r = ground arith

  pub commit_fork-is_silent :
      (which : Fork) (r : OperationResult) → is_silent (commit_fork a which r).made ≡ true
  unfolding commit_fork is_silent announces_success
  commit_fork-is_silent codex_fork r = elim (Option-cases a.validation_error) [
    | inl e ↦ ground arith
    | inr (text, e) ↦ ground arith
  ]
  commit_fork-is_silent claude_fork r = ground arith
  commit_fork-is_silent gemini_fork r = ground arith
  commit_fork-is_silent worktree r = ground arith

  pub continue_stage-is_backed :
      (which : Option Fork) (s : Forwarded)
      → is_silent s.made ≡ true
      → is_backed a false (continue_stage a which s).calls ≡ true
  unfolding continue_stage
  continue_stage-is_backed which s h = elim (Option-cases s.outcome) [
    | inl e ↦ rw e (silent_calls-is_backed s.made false h)
    | inr (r, e) ↦ rw e (
        ++-is_backed s.made (complete_and_publish a which r).calls false h
          (λ now. complete_and_publish-is_backed which r now))
  ]
