-- ===== src/Core/Autonomy.antt =====
-- packages/core/src/autonomy.ts: the decision on a finished drafting run.
pub mod Send
use ai_email_support_agent.Base.{ℕ, Bool, true, false, not, ◌||◌, Option, some, ltb, if◌then◌else◌}

pub data Outcome : Type 0 where
  reply escalate no_reply : Outcome

pub data CategoryMode : Type 0 where
  off review auto : CategoryMode

pub data DecisionAction : Type 0 where
  send review escalate no_action : DecisionAction

pub data DecisionReason : Type 0 where
  platform_killswitch workspace_killswitch agent_disabled subscription_inactive tripwire :
      DecisionReason
  agent_escalate redraft_unfulfilled no_reply guardrail_failed dmarc_fail : DecisionReason
  category_off category_review redraft guardrail_warning memory_conflict : DecisionReason
  unresolved_questions thread_too_long cold_start below_threshold attachments : DecisionReason
  allowance_exhausted auto_send_cap mailbox_unhealthy ok : DecisionReason

pub record Guardrail : Type 0 where
  pub ok : Bool
  pub warning_count : ℕ

-- `evidence` and `threshold` are JavaScript numbers, of type `N`; only their order is used.
pub record DecisionInput (N : Type 0) : Type 0 where
  pub platform_kill_switch : Bool
  pub workspace_kill_switch : Bool
  pub agent_enabled : Bool
  pub agent_active : Bool
  pub subscription_active : Bool
  pub tripwire : Bool
  pub outcome : Outcome
  pub owner_feedback_pending : Bool
  pub guardrail : Guardrail
  pub dmarc_pass : Option Bool
  pub category_mode : CategoryMode
  pub is_redraft : Bool
  pub memory_conflict : Bool
  pub unresolved_questions : Bool
  pub thread_too_long : Bool
  pub human_decision_count : ℕ
  pub evidence : Option N
  pub threshold : Option N
  pub has_attachments : Bool
  pub allowance_exhausted : Bool
  pub auto_send_cap_reached : Bool
  pub mailbox_healthy : Bool

-- `quiet` is absent in the source where it is false here.
pub record Decision : Type 0 where
  pub action : DecisionAction
  pub reason : DecisionReason
  pub quiet : Bool

abbrev pub cold_start_decisions : ℕ
cold_start_decisions = 10

abbrev pub loud : DecisionAction → DecisionReason → Decision
loud a r = record { action = a; reason = r; quiet = false }

abbrev pub is_escalate : Outcome → Bool
is_escalate Outcome.escalate = true
is_escalate _ = false

abbrev pub is_no_reply : Outcome → Bool
is_no_reply Outcome.no_reply = true
is_no_reply _ = false

-- `dmarcPass !== true`
abbrev pub is_pass : Option Bool → Bool
is_pass (some true) = true
is_pass _ = false

abbrev pub is_off : CategoryMode → Bool
is_off off = true
is_off _ = false

abbrev pub is_review : CategoryMode → Bool
is_review CategoryMode.review = true
is_review _ = false

module _ {N : Type 0} (lt : N → N → Bool) where
  -- `evidence === null || threshold === null || evidence < threshold`
  unfoldable pub below : Option N → Option N → Bool
  below (some e) (some t) = lt e t
  below _ _ = true

  -- The ladder after the category gate.
  unfoldable pub decide_auto : DecisionInput N → Decision
  unfolding below
  decide_auto i =
      if i.is_redraft
      then loud review redraft
      else if ltb 0 i.guardrail.warning_count
      then loud review guardrail_warning
      else if i.memory_conflict
      then loud review memory_conflict
      else if i.unresolved_questions
      then loud review unresolved_questions
      else if i.thread_too_long
      then loud review thread_too_long
      else if ltb i.human_decision_count cold_start_decisions
      then loud review cold_start
      else if below i.evidence i.threshold
      then loud review below_threshold
      else if i.has_attachments
      then loud review attachments
      else if i.allowance_exhausted
      then loud review allowance_exhausted
      else if i.auto_send_cap_reached
      then loud review auto_send_cap
      else if not i.mailbox_healthy
      then loud review mailbox_unhealthy
      else loud send ok

  unfoldable pub decide : DecisionInput N → Decision
  decide i =
      if i.platform_kill_switch
      then loud review platform_killswitch
      else if i.workspace_kill_switch
      then loud review workspace_killswitch
      else if not i.agent_enabled || not i.agent_active
      then loud review agent_disabled
      else if not i.subscription_active
      then loud review subscription_inactive
      else if i.tripwire
      then loud escalate tripwire
      else if is_escalate i.outcome
      then loud escalate agent_escalate
      else if is_no_reply i.outcome
      then (if i.owner_feedback_pending
          then loud escalate redraft_unfulfilled
          else loud no_action no_reply)
      else if not i.guardrail.ok
      then loud escalate guardrail_failed
      else if not (is_pass i.dmarc_pass)
      then loud review dmarc_fail
      else if is_off i.category_mode
      then record { action = escalate; reason = category_off; quiet = true }
      else if is_review i.category_mode
      then loud review category_review
      else decide_auto i
