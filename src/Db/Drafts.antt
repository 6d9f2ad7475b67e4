-- ===== src/Db/Drafts.antt =====
-- packages/db/src/schema/drafts.ts, sends.ts and memory.ts, and the index `drafts_live_per_ticket_uidx`
-- of packages/db/migrations/0011_draft_hardening.sql: the drafts of one workspace, their ledger of
-- sends, and the answers it remembers.
use ai_email_support_agent.Base.{
  some, ℕ, suc, Bool, true, false, Option, List, [], ◌∷◌, ◌==◌, ◌&&◌, if◌then◌else◌, has, nat_eq,
}
use ai_email_support_agent.Core.Transitions.{
  DraftStatus, pending, approved, sending, OutboundSendStatus, queued, claimed,
}
use ai_email_support_agent.Db.Tables.{Text}

-- packages/contracts/src/drafts.ts: DECISION_SOURCES
pub data DecisionSource : Type 0 where
  app email auto : DecisionSource

pub record Draft : Type 0 where
  pub id : ℕ
  pub ticket_id : ℕ
  pub agent_id : Option ℕ
  pub agent_run_id : ℕ
  pub version : ℕ
  pub body : Text
  pub final_body : Option Text
  pub status : DraftStatus
  pub category_id : Option ℕ
  pub viewed_at : Option ℕ
  pub decided_at : Option ℕ
  pub decision_source : Option DecisionSource
  pub auto_decided_at : Option ℕ
  pub auto_held_at : Option ℕ
  pub thread_snapshot_at : ℕ
  pub is_redraft : Bool
  pub expires_at : ℕ

-- apps/worker/src/jobs/send-execute.ts: the keys of LEVER_WORDS
pub data KillLever : Type 0 where
  platform_killswitch workspace_kill_switch agent_disabled agent_inactive : KillLever
  connection_unavailable category_off subscription_inactive category_not_auto : KillLever

-- The texts of `last_error`; `failure` is the message of an error that was thrown.
pub data SendError : Type 0 where
  held_by : KillLever → SendError
  reauth_required delivery_unverified stale_thread draft_not_approved no_final_body : SendError
  guardrail no_customer_email no_inbound_message no_rfc_message_id aborted_before_send : SendError
  ticket_resolved superseded_by_redraft failure : SendError

pub record OutboundSend : Type 0 where
  pub id : ℕ
  pub draft_id : ℕ
  pub ticket_id : ℕ
  pub connection_id : ℕ
  pub status : OutboundSendStatus
  pub send_after : ℕ
  pub agent_id : Option ℕ
  pub claimed_at : Option ℕ
  pub claim_expires_at : Option ℕ
  pub claim_token : Option ℕ
  pub provider_draft_id : Option ℕ
  pub provider_message_id : Option ℕ
  pub attempts : ℕ
  pub last_error : Option SendError
  pub sent_at : Option ℕ

pub data AnswerStatus : Type 0 where
  candidate active needs_review retired : AnswerStatus

pub record ResolvedAnswer : Type 0 where
  pub id : ℕ
  pub status : AnswerStatus

-- LIVE_DRAFT_STATUSES, and the index's WHERE.
abbrev pub is_live_status : DraftStatus → Bool
is_live_status pending = true
is_live_status approved = true
is_live_status DraftStatus.held = true
is_live_status sending = true
is_live_status _ = false

unfoldable pub live_on : ℕ → Draft → Bool
live_on ticket_id d = d.ticket_id == ticket_id && is_live_status d.status

unfoldable pub count_live : ℕ → List Draft → ℕ
count_live k [] = 0
count_live k (d ∷ ds) = let rest = count_live k ds in if live_on k d then suc rest else rest

unfoldable pub count_of : ℕ → List Draft → ℕ
count_of k [] = 0
count_of k (d ∷ ds) = let rest = count_of k ds in if d.ticket_id == k then suc rest else rest

abbrev pub is_holdable : OutboundSendStatus → Bool
is_holdable queued = true
is_holdable claimed = true
is_holdable _ = false

-- `UPDATE outbound_sends SET status = 'held', last_error = … WHERE draft_id = … AND status IN ('queued', 'claimed')`
unfoldable pub hold_sends : ℕ → List OutboundSend → List OutboundSend
hold_sends draft [] = []
hold_sends draft (s ∷ ss) =
    let rest = hold_sends draft ss in
    if s.draft_id == draft && is_holdable s.status
    then record s {
      status = OutboundSendStatus.held;
      last_error = some SendError.superseded_by_redraft;
    }
      ∷ rest
    else s ∷ rest

abbrev pub is_active : AnswerStatus → Bool
is_active active = true
is_active _ = false

-- `UPDATE resolved_answers SET status = 'needs_review' WHERE id IN … AND status = 'active'`
unfoldable pub flag_answers : List ℕ → List ResolvedAnswer → List ResolvedAnswer
flag_answers ids [] = []
flag_answers ids (a ∷ rows) =
    let rest = flag_answers ids rows in
    if has ids a.id && is_active a.status
    then record a { status = needs_review } ∷ rest
    else a ∷ rest
