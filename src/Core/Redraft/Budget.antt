-- ===== src/Core/Redraft/Budget.antt =====
-- packages/core/src/redraft.ts, packages/core/src/invariants.ts: the boot check and the run budget of redrafts.
use ai_email_support_agent.Base.{
  ℕ, ◌+◌, ◌*◌, ◌≤◌, ◌<◌, Bool, true, false, List, [], ◌∷◌, ◌≡◌, ◌≢◌, ◌↔◌, arith, refl,
}
use ai_email_support_agent.Core.Transitions.{TicketStatus, awaiting_review}
use ai_email_support_agent.Core.Redraft.{
  Constants, Violation, push_if, check_invariants, RejectAction, RejectResolution,
  resolve_reject_action,
}

-- What the boot check asks of the constants.
pub record Coherent (v : Constants) : Type 0 where
  pub runs : 1 + v.redraft_max ≤ v.agent_max_runs_per_ticket_per_day
  pub horizon : v.send_claim_horizon_seconds ≡ v.send_queue_expire_seconds
  pub release : v.send_release_retry_seconds < v.send_retry_delay_seconds
  pub watchdog : v.draft_watchdog_seconds + v.job_signal_margin_seconds < v.draft_job_expire_seconds
  pub budget : v.trial_llm_usd_budget ≤ v.trial_daily_llm_usd_cap * v.trial_days
  pub grace : 7 ≤ v.workspace_delete_grace_days

push_if-nil_iff :
    {P Q : Type 0} (b : Bool) (x : Violation) (vs : List Violation)
    → (b ≡ false) ↔ P
    → (vs ≡ []) ↔ Q
    → (push_if b x vs ≡ []) ↔ (P × Q)
unfolding push_if
push_if-nil_iff true x [] p q = (λ h. cc, λ h. cc (p.1 h.0))
push_if-nil_iff true x (v ∷ vs) p q = (λ h. cc, λ h. cc (p.1 h.0))
push_if-nil_iff false x vs p q = (λ h. (p.0 refl, q.0 h), λ h. q.1 h.1)

check_invariants-nil_parts :
    (v : Constants)
    → (check_invariants v ≡ []) ↔ (
        (7 ≤ v.workspace_delete_grace_days)
        × ((v.trial_llm_usd_budget ≤ v.trial_daily_llm_usd_cap * v.trial_days)
            × ((v.draft_watchdog_seconds + v.job_signal_margin_seconds < v.draft_job_expire_seconds)
                × ((v.send_release_retry_seconds < v.send_retry_delay_seconds)
                    × ((v.send_claim_horizon_seconds ≡ v.send_queue_expire_seconds)
                        × ((1 + v.redraft_max ≤ v.agent_max_runs_per_ticket_per_day)
                            × Unit {0}))))))
unfolding check_invariants
check_invariants-nil_parts v = push_if-nil_iff _ _ _ (ground arith) (
    push_if-nil_iff _ _ _ (ground arith) (
      push_if-nil_iff _ _ _ (ground arith) (
        push_if-nil_iff _ _ _ (ground arith) (
          push_if-nil_iff _ _ _ (ground arith)
            (push_if-nil_iff _ _ _ (ground arith) (λ _. tt, λ _. refl))))))

-- The boot check passes exactly on coherent constants: it reports no violation, and misses none.
pub check_invariants-nil_iff : (v : Constants) → (check_invariants v ≡ []) ↔ Coherent v
unfolding check_invariants
check_invariants-nil_iff v =
    let (to, from) = check_invariants-nil_parts v in
    (
      λ h.
          let (grace, (budget, (watchdog, (release, (horizon, (runs, _)))))) = to h in
          record {
            runs = runs;
            horizon = horizon;
            release = release;
            watchdog = watchdog;
            budget = budget;
            grace = grace;
          },
      λ c. from (c.grace, (c.budget, (c.watchdog, (c.release, (c.horizon, (c.runs, tt)))))),
    )

-- A rejection leads to a new draft exactly when a reason is given, the ticket awaits review, the
-- cycle is below its limit and the owner asked for it.
pub resolve_reject_action-redraft_iff :
    (trim : List ℕ → List ℕ) (max : ℕ) (reason : List ℕ) (action : RejectAction) (count : ℕ)
    (status : TicketStatus)
    → (resolve_reject_action trim max reason action count status ≡ RejectResolution.redraft) ↔ (
        (trim reason ≢ [])
        × (status ≡ awaiting_review)
        × (count < max)
        × (action ≡ RejectAction.redraft))
unfolding resolve_reject_action
resolve_reject_action-redraft_iff trim max reason action count status =
    (λ h. ground arith, λ h. ground arith)
