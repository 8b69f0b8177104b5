-- ===== src/Gateway/Rounds.antt =====
-- The two halves of a round of `flush`: what each does to the table and to the stream.
use my_wio.Base.{
  ℕ, suc, String, ◌≡◌, refl, sym, ap, ◌∙◌, Bool, true, false, Option, none, some, List, [], ◌∷◌,
  str_eq, arith, ◌⊎◌, Bool-cases, Option-cases, inl, inr, if◌then◌else◌, ◌&&◌,
}
use my_wio.Store.Operations.{Operation, operation, is_claimed_turn, claim_gemini_delivery}
use my_wio.Store.Operations.Steps.{delivered}
use my_wio.Store.Operations.Lifecycle.{Reach, here, next, Reach-trans}
use my_wio.Store.Queue.{Db, Outcome, granted, refused}
use my_wio.Store.Queue.Statements.{queue-Reach}
use my_wio.Gateway.{
  Envelope, Link, Codec, passed_over, envelope, dispatch, settle, clear_payload, send_envelope,
  send_claimed, woken_by, interrupt_threads, marked, turn_threads, queue_best_effort_interrupt,
  queue_gemini_interrupt, is_codex_turn_operation, is_gemini_turn_operation, is_cancelled,
}

-- How often the turn of an operation was sent.
unfoldable pub turns_sent : String → List Envelope → ℕ
turns_sent id [] = 0
turns_sent id (e ∷ es) =
    let n = turns_sent id es in
    if is_claimed_turn e.kind && str_eq e.operation_id id then suc n else n

module _ (decrypt : String → Option String) (accepts : Envelope → Bool) (now : ℕ) (o : Operation)
    (l : Link) where
  abbrev claim : List Operation × Bool
  claim = claim_gemini_delivery o.id now l.db.operations

  -- What a dispatch does that sends no turn, and what it does to send a turn.
  abbrev pub IsQuiet : Link → Type 0
  IsQuiet l' =
      ((l'.db.operations ≡ l.db.operations) ⊎ (l'.db.operations ≡ claim.0))
      × ((j : String) → turns_sent j l'.sent ≡ turns_sent j l.sent)

  abbrev pub IsTurnSent : Link → Type 0
  IsTurnSent l' =
      (payload : String) × (is_claimed_turn o.kind ≡ true)
      × (claim.1 ≡ true)
      × (l'.db.operations ≡ claim.0)
      × (l'.sent ≡ envelope o payload ∷ l.sent)

  dispatch-hidden :
      clear_payload decrypt accepts now o.payload ≡ none
      → dispatch decrypt accepts now o l ≡ (l, passed_over)
  unfolding dispatch
  dispatch-hidden e = ground arith

  dispatch-plain :
      {payload : String}
      → clear_payload decrypt accepts now o.payload ≡ some payload
      → is_claimed_turn o.kind ≡ false
      → dispatch decrypt accepts now o l ≡ send_envelope decrypt accepts now (envelope o payload) l
  unfolding dispatch
  dispatch-plain e k = ground arith

  dispatch-turn :
      {payload : String}
      → clear_payload decrypt accepts now o.payload ≡ some payload
      → is_claimed_turn o.kind ≡ true
      → dispatch decrypt accepts now o l
        ≡ send_claimed decrypt accepts now (envelope o payload) l claim
  unfolding dispatch
  dispatch-turn e k = ground arith

  plain_effect :
      (payload : String)
      → is_claimed_turn o.kind ≡ false
      → IsQuiet (send_envelope decrypt accepts now (envelope o payload) l).0
  unfolding send_envelope turns_sent
  plain_effect payload k = elim (Bool-cases (accepts (envelope o payload))) [
    | inl a ↦ rw a (inl refl, λ j. ground arith)
    | inr a ↦ rw a (inl refl, λ j. refl)
  ]

  turn_effect :
      (payload : String) (ops : List Operation) (took : Bool)
      → is_claimed_turn o.kind ≡ true
      → claim ≡ (ops, took)
      → let l' = (send_claimed decrypt accepts now (envelope o payload) l (ops, took)).0 in
        IsQuiet l' ⊎ IsTurnSent l'
  unfolding send_claimed send_envelope
  turn_effect payload ops false k c = inl (inr (sym (ap (λ r. r.0) c)), λ j. refl)
  turn_effect payload ops true k c = elim (Bool-cases (accepts (envelope o payload))) [
    | inl a ↦ inr (rw a (payload, k, ap (λ r. r.1) c, sym (ap (λ r. r.0) c), refl))
    | inr a ↦ inl (rw a (inr (sym (ap (λ r. r.0) c)), λ j. refl))
  ]

  pub dispatch_effect : let l' = (dispatch decrypt accepts now o l).0 in IsQuiet l' ⊎ IsTurnSent l'
  dispatch_effect = elim (Option-cases (clear_payload decrypt accepts now o.payload)) [
    | inl e ↦ rw (dispatch-hidden e) (inl (inl refl, λ j. refl))
    | inr (payload, e) ↦ elim (Bool-cases (is_claimed_turn o.kind)) [
      | inr k ↦ rw (dispatch-plain e k) (inl (plain_effect payload k))
      | inl k ↦ rw (dispatch-turn e k) (turn_effect payload claim.0 claim.1 k refl)
    ]
  ]

module _ (json_valid : String → Bool) where
  -- The streams stay as they are, and the table is reached by statements.
  abbrev pub Writes : Link → Link → Type 0
  Writes l l' = Reach json_valid l.db.operations l'.db.operations × (l'.sent ≡ l.sent)

module _ (json_valid : String → Bool) (codec : Codec) (meanwhile : Db → Db) (fresh : String)
    (now : ℕ) (o : Operation) where
  pub marked-Writes : (l : Link) → Writes json_valid l (marked codec meanwhile fresh now o l)
  unfolding marked
  marked-Writes l = elim (Bool-cases (is_claimed_turn o.kind)) [
    | inl e ↦ rw e (here, refl)
    | inr e ↦ rw e (next here (delivered o.id now), refl)
  ]

module _ (json_valid : String → Bool) (codec : Codec) (meanwhile : Db → Db)
    (commits : (db : Db) → Reach json_valid db.operations (meanwhile db).operations)
    (fresh : String) (now : ℕ) (server_id : String) (o : Operation) where
  woken-Writes :
      (l : Link) (r : Db × Outcome String)
      → Reach json_valid l.db.operations r.0.operations
      → Writes json_valid l (woken_by codec meanwhile fresh now l r).0
  unfolding woken_by
  woken-Writes l (db, granted id) h = (h, refl)
  woken-Writes l (db, refused e) h = (h, refl)

  threads-Writes :
      (l : Link) (threads : Option (String × String))
      → Writes json_valid l (interrupt_threads codec meanwhile fresh now server_id o l threads).0
  unfolding interrupt_threads
  threads-Writes l none = (here, refl)
  threads-Writes l (some (thread_id, codex_thread)) = elim (Bool-cases (str_eq thread_id "")) [
    | inl e ↦ rw e (here, refl)
    | inr e ↦ rw e (
        woken-Writes l _
          (queue-Reach json_valid meanwhile commits fresh now server_id _ _ _ _ _ l.db))
  ]

  best_effort-Writes :
      (l : Link)
      → Writes json_valid l (queue_best_effort_interrupt codec meanwhile fresh now server_id o l).0
  unfolding queue_best_effort_interrupt
  best_effort-Writes l = threads-Writes l (turn_threads codec o.kind o.payload)

  gemini-Writes :
      (l : Link)
      → Writes json_valid l (queue_gemini_interrupt codec meanwhile fresh now server_id o l).0
  unfolding queue_gemini_interrupt
  gemini-Writes l = elim (Option-cases (codec.gemini_thread o.payload)) [
    | inl e ↦ rw (queue_gemini_interrupt, e) (here, refl)
    | inr (thread_id, e) ↦
        rw (queue_gemini_interrupt, e)
          (woken-Writes l _
            (queue-Reach json_valid meanwhile commits fresh now server_id _ _ _ _ _ l.db))
  ]

  interrupts-Writes :
      (l : Link) (codex gemini cancelled : Bool)
      → Writes json_valid l
          (if codex
            then if cancelled
              then ((queue_best_effort_interrupt codec meanwhile fresh now server_id o l).0, true)
              else (l, true)
            else if gemini && cancelled
            then queue_gemini_interrupt codec meanwhile fresh now server_id o l
            else (l, true)).0
  interrupts-Writes l true gemini true = best_effort-Writes l
  interrupts-Writes l true gemini false = (here, refl)
  interrupts-Writes l false true true = gemini-Writes l
  interrupts-Writes l false true false = (here, refl)
  interrupts-Writes l false false cancelled = (here, refl)

  -- Writing back the state of a sent operation is a run of statements, and sends nothing.
  pub settle-Writes :
      (l : Link) → Writes json_valid l (settle codec meanwhile fresh now server_id o l).0
  unfolding settle
  settle-Writes l =
      let l' = marked codec meanwhile fresh now o l in
      let before = marked-Writes json_valid codec meanwhile fresh now o l in
      let after =
        interrupts-Writes l' (is_codex_turn_operation o.kind) (is_gemini_turn_operation o.kind)
          (is_cancelled (operation o.id l'.db.operations)) in
      (Reach-trans json_valid before.0 after.0, after.1 ∙ before.1)
