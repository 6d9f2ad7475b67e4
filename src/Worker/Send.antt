-- ===== src/Worker/Send.antt =====
-- apps/worker/src/jobs/send-execute.ts: the claim of a due send, what the claim reads, and the kill
-- levers. Workspaces, agents, connections, policies and the billing row are only read by this job.
pub mod Land
pub mod Complete
pub mod Thread
pub mod Run
mod Ledger
mod Touched
pub mod Safety
pub mod Metered
pub mod Blind
mod Tests
pub mod Delivery
use ai_email_support_agent.Base.{
  ℕ, ◌+◌, ◌*◌, Bool, true, false, not, Option, none, some, ◌⊎◌, inl, inr, ◌==◌, ◌&&◌, ◌||◌, leb,
  if◌then◌else◌, find_row, update_row,
}
use ai_email_support_agent.Core.Transitions.{OutboundSendStatus, queued, claimed, outbound_send_eq}
use ai_email_support_agent.Core.Autonomy.{CategoryMode}
use ai_email_support_agent.Core.Redraft.{invariants}
use ai_email_support_agent.Core.Billing.{
  BillingRow, PlanId, BillingStatus, OverageMode, Period, is_billing_active, billing_state_of,
  period_of,
}
use ai_email_support_agent.Db.Tables.{Ticket, find_ticket}
use ai_email_support_agent.Db.Drafts.{Draft, DecisionSource, OutboundSend, KillLever}
use ai_email_support_agent.Db.Sends.{World, send_id, draft_id}

abbrev pub send_claim_horizon_seconds : ℕ
send_claim_horizon_seconds = invariants.send_claim_horizon_seconds

abbrev pub is_status : OutboundSendStatus → OutboundSend → Bool
is_status status s = outbound_send_eq s.status status

-- `lte(claim_expires_at, now)`, which is not true of NULL.
abbrev pub is_expired : Option ℕ → ℕ → Bool
is_expired none now = false
is_expired (some at) now = leb at now

unfoldable pub claim_guard : ℕ → OutboundSend → Bool
claim_guard now s =
    (is_status queued s || is_status claimed s)
    && leb s.send_after now
    && (is_status queued s || is_expired s.claim_expires_at now)

unfoldable pub claim_set : ℕ → ℕ → OutboundSend → OutboundSend
claim_set token now s = record s {
  status = claimed;
  claimed_at = some now;
  claim_expires_at = some (now + send_claim_horizon_seconds * 1000);
  claim_token = some token;
  attempts = s.attempts + 1;
}

-- packages/contracts/src/agents.ts and mail.ts
pub data AgentStatus : Type 0 where
  pending_verification active disabled : AgentStatus

pub data ConnectionStatus : Type 0 where
  pending_claim connected reauth_required disabled : ConnectionStatus

pub record Workspace : Type 0 where
  pub agent_enabled : Bool
  pub kill_switch : Bool

-- The rows that the claim reads and the job never writes.
pub record Settings : Type 0 where
  pub platform_state : Option Bool
  pub workspace : Option Workspace
  pub agents : ℕ → Option AgentStatus
  pub connections : ℕ → Option ConnectionStatus
  pub policies : ℕ → ℕ → Option CategoryMode
  pub billing_subscription : Option BillingRow

pub record ClaimedSend : Type 0 where
  pub claim_token : ℕ
  pub send : OutboundSend
  pub draft : Draft
  pub ticket : Ticket
  pub agent : Option AgentStatus
  pub connection : ConnectionStatus
  pub workspace : Workspace
  pub platform_kill_switch : Bool
  pub category_mode : CategoryMode
  pub billing_active : Bool
  pub period_start : ℕ

-- The errors that the claim throws, which roll its transaction back.
pub data ClaimError : Type 0 where
  missing_draft missing_ticket missing_connection missing_workspace : ClaimError

-- `lever?.value === true`
abbrev pub is_on : Option Bool → Bool
is_on (some true) = true
is_on _ = false

unfoldable pub default_row : BillingRow
default_row = record {
  plan = PlanId.trial;
  status = BillingStatus.trialing;
  trial_ends_at = none;
  current_period_start = none;
  current_period_end = none;
  domain_quantity = 0;
  included_conversations_per_domain = 300;
  overage_mode = OverageMode.automatic;
}

unfoldable pub read_billing_row : Option BillingRow → BillingRow
read_billing_row (some row) = row
read_billing_row none = default_row

abbrev agent_row : Settings → Option ℕ → Option AgentStatus
agent_row settings (some k) = settings.agents k
agent_row settings none = none

abbrev policy_or_review : Option CategoryMode → CategoryMode
policy_or_review (some mode) = mode
policy_or_review none = CategoryMode.review

-- The policy of the send's own agent for the draft's category; `review` where one of them is missing.
unfoldable pub category_mode_of : Settings → Option ℕ → Option AgentStatus → Option ℕ → CategoryMode
category_mode_of settings (some agent) (some row) (some category) =
    policy_or_review (settings.policies agent category)
category_mode_of settings _ _ _ = CategoryMode.review

-- `or_throw` is `if (!row) throw`.
abbrev or_throw {ℓ} : {A B : Type ℓ} → ClaimError → Option A → (A → ClaimError ⊎ B) → ClaimError ⊎ B
or_throw e none k = inl e
or_throw e (some a) k = k a

-- `month_of` is the UTC month that holds a date.
module _ (month_of : ℕ → Period) where
  -- What the claim reads, after the UPDATE that returned `send`.
  unfoldable pub read_claim : Settings → ℕ → ℕ → OutboundSend → World → ClaimError ⊎ ClaimedSend
  read_claim settings token now send w =
      or_throw missing_draft (find_row draft_id send.draft_id w.drafts) λ draft.
        or_throw missing_ticket (find_ticket send.ticket_id w.tables.tickets) λ ticket.
          or_throw missing_connection (settings.connections send.connection_id) λ connection.
            or_throw missing_workspace settings.workspace λ workspace. inr (record {
              claim_token = token;
              send = send;
              draft = draft;
              ticket = ticket;
              agent = agent_row settings send.agent_id;
              connection = connection;
              workspace = workspace;
              platform_kill_switch = is_on settings.platform_state;
              category_mode =
                  category_mode_of settings send.agent_id (agent_row settings send.agent_id)
                    draft.category_id;
              billing_active =
                  is_billing_active
                    (billing_state_of (read_billing_row settings.billing_subscription) now);
              period_start =
                  (period_of month_of (read_billing_row settings.billing_subscription) now).start;
            })

  abbrev pub commit : World → ClaimError ⊎ ClaimedSend → ClaimError ⊎ (Option ClaimedSend × World)
  commit w (inl e) = inl e
  commit w (inr c) = inr (some c, w)

  abbrev pub returning :
      Settings → ℕ → ℕ → Option OutboundSend → World → ClaimError ⊎ (Option ClaimedSend × World)
  returning settings token now none w = inr (none, w)
  returning settings token now (some send) w = commit w (read_claim settings token now send w)

  -- `token` is the fresh uuid of this claim.
  unfoldable pub claim_send :
      Settings → ℕ → ℕ → ℕ → World → ClaimError ⊎ (Option ClaimedSend × World)
  claim_send settings send token now w =
      let (sends, hit) = update_row send_id send (claim_guard now) (claim_set token now) w.sends in
      if hit
      then returning settings token now (find_row send_id send sends) (record w { sends = sends })
      else inr (none, w)

abbrev is_active : Option AgentStatus → Bool
is_active (some AgentStatus.active) = true
is_active _ = false

abbrev is_connected : ConnectionStatus → Bool
is_connected ConnectionStatus.connected = true
is_connected _ = false

abbrev is_off : CategoryMode → Bool
is_off CategoryMode.off = true
is_off _ = false

abbrev is_auto_mode : CategoryMode → Bool
is_auto_mode CategoryMode.auto = true
is_auto_mode _ = false

abbrev pub is_auto : Option DecisionSource → Bool
is_auto (some DecisionSource.auto) = true
is_auto _ = false

unfoldable pub first_kill_lever : ClaimedSend → Option KillLever
first_kill_lever c =
    if c.platform_kill_switch
    then some KillLever.platform_killswitch
    else if c.workspace.kill_switch
    then some KillLever.workspace_kill_switch
    else if not c.workspace.agent_enabled
    then some KillLever.agent_disabled
    else if not (is_active c.agent)
    then some KillLever.agent_inactive
    else if not (is_connected c.connection)
    then some KillLever.connection_unavailable
    else if is_off c.category_mode
    then some KillLever.category_off
    else if not c.billing_active && is_auto c.draft.decision_source
    then some KillLever.subscription_inactive
    else if is_auto c.draft.decision_source && not (is_auto_mode c.category_mode)
    then some KillLever.category_not_auto
    else none
