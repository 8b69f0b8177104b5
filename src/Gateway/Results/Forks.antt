-- ===== src/Gateway/Results/Forks.antt =====
-- internal/agentgateway/gateway.go: the success of a fork or a worktree.
use my_wio.Base.{
  Bool, true, false, Option, none, some, List, [], ◌∷◌, ◌++◌, ◌≡◌, refl, arith, Option-cases, inl,
  inr,
}
use my_wio.Store.Operations.{Operation, OperationResult}
use my_wio.Gateway.Results.{
  Fork, codex_fork, claude_fork, gemini_fork, worktree, Call, completes_operation, commits_fork,
  Answers, attempt_call, publish_result,
}
use my_wio.Gateway.Results.Stages.{
  Forwarded, succeeded, commit_fork, complete_and_publish, continue_stage,
}
use my_wio.Gateway.Results.Routes.{fork, handle_routine}
use my_wio.Gateway.Results.Backed.{announces_success, is_silent, commit_fork-is_silent}

passes_success : Option OperationResult → Bool
passes_success none = false
passes_success (some r) = succeeded r

module _ (a : Answers) where
  commit_fork-passes :
      (which : Fork) (r : OperationResult)
      → passes_success (commit_fork a which r).outcome ≡ true
      → (succeeded r ≡ true) × (a.succeeds (commits_fork which) ≡ true)
  unfolding commit_fork passes_success
  commit_fork-passes codex_fork r h = elim (Option-cases a.validation_error) [
    | inl e ↦ (ground arith, ground arith)
    | inr (text, e) ↦ (ground arith, ground arith)
  ]
  commit_fork-passes claude_fork r h = (ground arith, ground arith)
  commit_fork-passes gemini_fork r h = (ground arith, ground arith)
  commit_fork-passes worktree r h = (ground arith, ground arith)

  complete_and_publish-passes :
      (which : Option Fork) (r : OperationResult)
      → is_silent (complete_and_publish a which r).calls ≡ false
      → (succeeded r ≡ true) × (a.succeeds (completes_operation r) ≡ true)
  unfolding complete_and_publish attempt_call publish_result is_silent announces_success
  complete_and_publish-passes none r h = (ground arith, ground arith)
  complete_and_publish-passes (some codex_fork) r h = (ground arith, ground arith)
  complete_and_publish-passes (some claude_fork) r h = (ground arith, ground arith)
  complete_and_publish-passes (some gemini_fork) r h = (ground arith, ground arith)
  complete_and_publish-passes (some worktree) r h = (ground arith, ground arith)

  ++-is_silent :
      (made calls : List Call) → is_silent made ≡ true → is_silent (made ++ calls) ≡ is_silent calls
  unfolding is_silent
  ++-is_silent [] calls h = refl
  ++-is_silent (c ∷ made) calls h = let step = ++-is_silent made calls in ground (arith, step)

  continue_stage-passes :
      (which : Option Fork) (s : Forwarded)
      → is_silent s.made ≡ true
      → is_silent (continue_stage a which s).calls ≡ false
      → passes_success s.outcome ≡ true
  unfolding continue_stage passes_success
  continue_stage-passes which s quiet h = elim (Option-cases s.outcome) [
    | inl e ↦ ground (arith, quiet)
    | inr (r, e) ↦
        let split = ++-is_silent s.made (complete_and_publish a which r).calls quiet in
        let passes = complete_and_publish-passes which r in ground (arith, split, passes, h, e)
  ]

  -- The success of a fork or a worktree is published only for a result that was one, and only if the
  -- row it makes was committed.
  pub published_fork_committed :
      (which : Fork) (o : Operation) (r : OperationResult)
      → is_silent (handle_routine a (fork which) o r).calls ≡ false
      → (succeeded r ≡ true) × (a.succeeds (commits_fork which) ≡ true)
  unfolding handle_routine
  published_fork_committed which o r h =
      let s = commit_fork a which r in
      commit_fork-passes which r
        (continue_stage-passes (some which) s (commit_fork-is_silent a which r) h)
