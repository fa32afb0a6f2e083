-- ===== src/Worker/Inversion.antt =====
-- What a task had done when it returned, or when it was stopped by a cancellation.
use shadowops.Prelude.{
  ℕ, ◌≡◌, refl, ap, ◌∙◌, subst, ◌∷◌, inl, inr, Bool, true, false, Option, none, some, if◌then◌else◌,
  Bool-cases, Option-cases, arith, Memᴰ,
}
use shadowops.Domain.Lifecycle.{RunState}
use shadowops.Domain.Errors.{Failure, claim_lost_error}
use shadowops.Domain.Rows.{AuditRun, RunStep}
use shadowops.Domain.Run.{is_some}
use shadowops.Worker.{
  run_cancellation_requested, failure, returned, raised, finalize_run, collect, Turn, Process, Task,
  Stage, returns, raises, checks, ◌>>=◌, ◌>>◌, pure, raise, effect, run_stage, is_dynamic, call,
  heartbeat_of, current_run, finalized, checkpoint, clean_up, guarded, stage_of,
}
use shadowops.Worker.Sequence.{>>=-returned, >>=-raised, not_cancelled}

-- A stage handler that returns, once its checkpoints let it.
pub data Returns : Stage → Type 0 where
  at_once : Returns returns
  behind_check : {rest : Stage} → Returns rest → Returns (checks rest)

module _ (turns : ℕ → Turn) (handlers : RunState → AuditRun → Stage) (sandbox : ℕ → Option Failure)
    (lease_duration : ℕ) (held : RunStep) where
  -- The transactions that led to a process were a heartbeat that renewed the claim and a lookup under
  -- it, which saw no request of a cancellation, or one that saw a request.
  abbrev pub Renews : Process → Type 0
  Renews w =
      (earlier : Process) × (heartbeat_of turns handlers sandbox lease_duration held earlier
        ≡ (returned true, w))

  abbrev pub GoesOn : Process → Type 0
  GoesOn w' =
      (seen : AuditRun) × (w : Process) × Renews w
      × (current_run turns handlers sandbox lease_duration held w ≡ (returned seen, w'))
      × (seen.cancel_requested_at ≡ none)

  abbrev pub Stopped : Process → Type 0
  Stopped w' =
      (seen : AuditRun) × (at : ℕ) × (w : Process) × Renews w
      × (current_run turns handlers sandbox lease_duration held w ≡ (returned seen, w'))
      × (seen.cancel_requested_at ≡ some at)

  pub current_run-raised :
      (w w' : Process)
      → current_run turns handlers sandbox lease_duration held w
        ≡ (raised run_cancellation_requested, w')
      → ⊥
  unfolding current_run call
  current_run-raised w w' h = not_cancelled _ _ w' h

  heartbeat_of-raised :
      (w w' : Process)
      → heartbeat_of turns handlers sandbox lease_duration held w
        ≡ (raised run_cancellation_requested, w')
      → ⊥
  unfolding heartbeat_of call
  heartbeat_of-raised w w' h = not_cancelled _ _ w' h

  pub finalized-raised :
      (w w' : Process)
      → finalized turns handlers sandbox lease_duration held w
        ≡ (raised run_cancellation_requested, w')
      → ⊥
  unfolding finalized call
  finalized-raised w w' h = not_cancelled _ _ w' h

  -- The two continuations of a checkpoint.
  abbrev on_look : AuditRun → Task (Unit {0})
  on_look run =
      if is_some run.cancel_requested_at then raise run_cancellation_requested else pure tt

  abbrev on_renewal : Bool → Task (Unit {0})
  on_renewal renewed =
      if renewed
      then (current_run turns handlers sandbox lease_duration held >>= on_look)
      else raise (failure (claim_lost_error held.id))

  checkpoint-GoesOn :
      (w w' : Process) {u : Unit {0}}
      → checkpoint turns handlers sandbox lease_duration held w ≡ (returned u, w')
      → GoesOn w'
  unfolding checkpoint is_some
  checkpoint-GoesOn w w' h =
      let (renewed, mid, b, q) =
        >>=-returned (heartbeat_of turns handlers sandbox lease_duration held) on_renewal w h in
      elim (Bool-cases renewed) [
        | inr e ↦ absurd (ground (arith, rw e at q))
        | inl e ↦
            let (run, mid', l, q') =
              >>=-returned (current_run turns handlers sandbox lease_duration held) on_look mid
                (rw e at q) in
            elim (Option-cases run.cancel_requested_at) [
              | inl none' ↦ (
                run,
                mid,
                (w, b ∙ ap (λ x. (returned x, mid)) e),
                l ∙ ap (λ x. (returned run, x)) (ground (arith, rw none' at q')),
                none',
              )
              | inr (at, asked) ↦ absurd (ground (arith, rw asked at q'))
            ]
      ]

  checkpoint-Stopped :
      (w w' : Process)
      → checkpoint turns handlers sandbox lease_duration held w
        ≡ (raised run_cancellation_requested, w')
      → Stopped w'
  unfolding checkpoint is_some
  checkpoint-Stopped w w' h =
      elim (>>=-raised (heartbeat_of turns handlers sandbox lease_duration held) on_renewal w h) [
        | inl r ↦ absurd (heartbeat_of-raised w w' r)
        | inr (renewed, mid, b, q) ↦ elim (Bool-cases renewed) [
          | inr e ↦ absurd (ground (arith, rw e at q))
          | inl e ↦
              elim (>>=-raised (current_run turns handlers sandbox lease_duration held) on_look mid
                (rw e at q)) [
                  | inl r ↦ absurd (current_run-raised mid w' r)
                  | inr (run, mid', l, q') ↦ elim (Option-cases run.cancel_requested_at) [
                    | inl none' ↦ absurd (ground (arith, rw none' at q'))
                    | inr (at, asked) ↦ (
                      run,
                      at,
                      mid,
                      (w, b ∙ ap (λ x. (returned x, mid)) e),
                      l ∙ ap (λ x. (returned run, x)) (ground (arith, rw asked at q')),
                      asked,
                    )
                  ]
                ]
        ]
      ]

  -- A stage whose checkpoints all passed, and one that a checkpoint stopped.
  run_stage-Returns :
      (stage : Stage) (w w' : Process) {u : Unit {0}}
      → run_stage (checkpoint turns handlers sandbox lease_duration held) stage w ≡ (returned u, w')
      → Returns stage
  unfolding run_stage ◌>>◌
  run_stage-Returns returns w w' h = at_once
  run_stage-Returns (raises e) w w' h = absurd (ground (arith, h))
  run_stage-Returns (checks rest) w w' h =
      let check = checkpoint turns handlers sandbox lease_duration held in
      let (v, mid, _, q) = >>=-returned check (λ _. run_stage check rest) w h in
      behind_check (run_stage-Returns rest mid w' q)

  run_stage-Stopped :
      (stage : Stage) (w w' : Process)
      → run_stage (checkpoint turns handlers sandbox lease_duration held) stage w
        ≡ (raised run_cancellation_requested, w')
      → Stopped w'
  unfolding run_stage ◌>>◌
  run_stage-Stopped returns w w' h = absurd (ground (arith, h))
  run_stage-Stopped (raises e) w w' h = absurd (ground (arith, h))
  run_stage-Stopped (checks rest) w w' h =
      let check = checkpoint turns handlers sandbox lease_duration held in
      elim (>>=-raised check (λ _. run_stage check rest) w h) [
        | inl r ↦ checkpoint-Stopped w w' r
        | inr (v, mid, _, q) ↦ run_stage-Stopped rest mid w' q
      ]

  -- Why the work of a completed stage, which began in `begun`, was over in `end`: the handler of the
  -- run that was read first returned, and no cancellation had been requested, neither there nor at the
  -- lookup that led to `end`; or one had been there, and the sandbox manager has finalized the run; or
  -- the lookup of a checkpoint saw one, which ended the work, and the evidence of a dynamic stage was
  -- collected then.
  pub data Over (begun end : Process) : Type 0 where
    worked :
        (read : AuditRun) (mid : Process)
        → current_run turns handlers sandbox lease_duration held begun ≡ (returned read, mid)
        → read.cancel_requested_at ≡ none
        → Returns (handlers held.to_state read)
        → GoesOn end
        → Over begun end
    cleaned :
        (read : AuditRun) (at : ℕ) (mid : Process)
        → current_run turns handlers sandbox lease_duration held begun ≡ (returned read, mid)
        → read.cancel_requested_at ≡ some at
        → sandbox read.id ≡ none
        → Memᴰ (finalize_run read.id) end.effects
        → Over begun end
    stopped :
        (left : Process)
        → guarded turns handlers sandbox lease_duration held begun
          ≡ (raised run_cancellation_requested, left)
        → Stopped left
        → end.db ≡ left.db
        → end.turn ≡ left.turn
        → (is_dynamic held.to_state ≡ true → Memᴰ (collect held.run_id) end.effects)
        → Over begun end

  clean_up-returned :
      (run_id : ℕ) (w w' : Process) {u : Unit {0}}
      → clean_up turns handlers sandbox lease_duration run_id w ≡ (returned u, w')
      → (sandbox run_id ≡ none) × Memᴰ (finalize_run run_id) w'.effects
  unfolding clean_up ◌>>◌ ◌>>=◌ effect
  clean_up-returned run_id w w' h = elim (Option-cases (sandbox run_id)) [
    | inl e ↦
        let at : record w { effects = finalize_run run_id ∷ w.effects } ≡ w' =
          ground (arith, rw e at h) in
        (e, subst (λ (x : Process). Memᴰ (finalize_run run_id) x.effects) at (Memᴰ.head refl))
    | inr (x, e) ↦ absurd (ground (arith, rw e at h))
  ]

  clean_up-raised :
      (run_id : ℕ) (w w' : Process)
      → clean_up turns handlers sandbox lease_duration run_id w
        ≡ (raised run_cancellation_requested, w')
      → ⊥
  unfolding clean_up ◌>>◌ ◌>>=◌ effect
  clean_up-raised run_id w w' h = elim (Option-cases (sandbox run_id)) [
    | inl e ↦ ground (arith, rw e at h)
    | inr (x, e) ↦ ground (arith, rw e at h)
  ]

  pub stage_of-Over :
      (read : AuditRun) (begun w w' : Process) {u : Unit {0}}
      → current_run turns handlers sandbox lease_duration held begun ≡ (returned read, w)
      → stage_of turns handlers sandbox lease_duration held read w ≡ (returned u, w')
      → Over begun w'
  unfolding stage_of ◌>>◌ is_some
  stage_of-Over read begun w w' r h = elim (Option-cases read.cancel_requested_at) [
    | inl none' ↦
        let calm : is_some read.cancel_requested_at ≡ false = ap is_some none' in
        let check = checkpoint turns handlers sandbox lease_duration held in
        let (v, mid, ran, q) =
          >>=-returned (run_stage check (handlers held.to_state read)) (λ _. check) w
            (rw calm at h) in
        worked read w r none' (run_stage-Returns (handlers held.to_state read) w mid ran)
          (checkpoint-GoesOn mid w' q)
    | inr (at, asked) ↦
        let (safe, m) = clean_up-returned read.id w w' (rw asked at h) in
        cleaned read at w r asked safe m
  ]

  pub stage_of-Stopped :
      (read : AuditRun) (w w' : Process)
      → stage_of turns handlers sandbox lease_duration held read w
        ≡ (raised run_cancellation_requested, w')
      → Stopped w'
  unfolding stage_of ◌>>◌ is_some
  stage_of-Stopped read w w' h = elim (Option-cases read.cancel_requested_at) [
    | inl none' ↦
        let calm : is_some read.cancel_requested_at ≡ false = ap is_some none' in
        let check = checkpoint turns handlers sandbox lease_duration held in
        elim (>>=-raised (run_stage check (handlers held.to_state read)) (λ _. check) w
          (rw calm at h)) [
            | inl x ↦ run_stage-Stopped (handlers held.to_state read) w w' x
            | inr (v, mid, _, q) ↦ checkpoint-Stopped mid w' q
          ]
    | inr (at, asked) ↦ absurd (clean_up-raised read.id w w' (rw asked at h))
  ]
