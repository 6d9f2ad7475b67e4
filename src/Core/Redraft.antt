-- ===== src/Core/Redraft.antt =====
-- packages/core/src/invariants.ts and packages/core/src/redraft.ts: the coupled constants, the boot
-- check over them, and what an owner's rejection of a draft does.
pub mod Budget
use ai_email_support_agent.Base.{
  ℕ, ◌+◌, ◌*◌, Bool, true, false, Option, none, List, [], ◌∷◌, ◌++◌, ltb, leb, ◌==◌, not,
  if◌then◌else◌,
}
use ai_email_support_agent.Core.Transitions.{TicketStatus, ticket_eq, awaiting_review}

-- USD amounts are whole dollars here, as in the source's table.
pub record Constants : Type 0 where
  pub redraft_max : ℕ
  pub agent_max_runs_per_ticket_per_day : ℕ
  pub agent_failure_escalate_at : ℕ
  pub send_queue_expire_seconds : ℕ
  pub send_claim_horizon_seconds : ℕ
  pub send_retry_delay_seconds : ℕ
  pub send_release_retry_seconds : ℕ
  pub draft_job_expire_seconds : ℕ
  pub draft_watchdog_seconds : ℕ
  pub job_signal_margin_seconds : ℕ
  pub trial_llm_usd_budget : ℕ
  pub trial_daily_llm_usd_cap : ℕ
  pub trial_days : ℕ
  pub workspace_delete_grace_days : ℕ

abbrev pub invariants : Constants
invariants = record {
  redraft_max = 2;
  agent_max_runs_per_ticket_per_day = 3;
  agent_failure_escalate_at = 2;
  send_queue_expire_seconds = 600;
  send_claim_horizon_seconds = 600;
  send_retry_delay_seconds = 30;
  send_release_retry_seconds = 15;
  draft_job_expire_seconds = 600;
  draft_watchdog_seconds = 240;
  job_signal_margin_seconds = 30;
  trial_llm_usd_budget = 10;
  trial_daily_llm_usd_cap = 3;
  trial_days = 14;
  workspace_delete_grace_days = 7;
}

-- The messages of the check, without the numbers that they quote.
pub data Violation : Type 0 where
  runs_under_redrafts horizon_not_expiry release_after_retry watchdog_after_expiry : Violation
  budget_over_caps grace_too_short : Violation

-- `if (test) violations.push(v)`
unfoldable pub push_if : Bool → Violation → List Violation → List Violation
push_if true v vs = vs ++ v ∷ []
push_if false v vs = vs

unfoldable pub check_invariants : Constants → List Violation
check_invariants v = push_if (ltb v.workspace_delete_grace_days 7) grace_too_short (
    push_if (ltb (v.trial_daily_llm_usd_cap * v.trial_days) v.trial_llm_usd_budget) budget_over_caps
      (push_if
        (leb v.draft_job_expire_seconds (v.draft_watchdog_seconds + v.job_signal_margin_seconds))
        watchdog_after_expiry
        (push_if (leb v.send_retry_delay_seconds v.send_release_retry_seconds) release_after_retry (
          push_if (not (v.send_claim_horizon_seconds == v.send_queue_expire_seconds))
            horizon_not_expiry
            (push_if (ltb v.agent_max_runs_per_ticket_per_day (1 + v.redraft_max))
              runs_under_redrafts [])))))

-- What a rejection asks for (packages/contracts/src/drafts.ts).
pub data RejectAction : Type 0 where
  redraft handle : RejectAction

pub data RejectResolution : Type 0 where
  redraft escalate_terminal escalate_limit : RejectResolution

abbrev is_redraft : RejectAction → Bool
is_redraft RejectAction.redraft = true
is_redraft _ = false

abbrev is_empty {ℓ} : {A : Type ℓ} → List A → Bool
is_empty [] = true
is_empty (_ ∷ _) = false

-- The two columns of a ticket that the cycle uses.
pub record RedraftCycle (F : Type 0) : Type 0 where
  pub owner_redraft_feedback : Option F
  pub redraft_count : ℕ

unfoldable pub clear_redraft_cycle : {F : Type 0} → RedraftCycle F
clear_redraft_cycle = record { owner_redraft_feedback = none; redraft_count = 0 }

-- `trim` is JavaScript's `String.prototype.trim`, on a text as the list of its code units;
-- `max` is `REDRAFT_MAX`.
module _ (trim : List ℕ → List ℕ) (max : ℕ) where
  unfoldable pub resolve_reject_action : List ℕ → RejectAction → ℕ → TicketStatus → RejectResolution
  resolve_reject_action reason action redraft_count ticket_status =
      if is_empty (trim reason)
      then escalate_terminal
      else if not (ticket_eq ticket_status awaiting_review)
      then escalate_terminal
      else if leb max redraft_count
      then escalate_limit
      else if not (is_redraft action)
      then escalate_terminal
      else RejectResolution.redraft
