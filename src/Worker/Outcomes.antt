-- ===== src/Worker/Outcomes.antt =====
-- apps/worker/src/drafting/outcomes.ts: the authoritative landings of a drafting run. Each is one
-- transaction, and one that throws leaves the store as it was. The two `assert` calls of a landing are
-- on constant edges of the matrices and pass.
pub mod Landing
pub mod Slot
pub mod Finish
mod Tests
use ai_email_support_agent.Base.{
  ℕ, suc, ◌+◌, ◌*◌, Bool, true, false, not, Option, none, some, List, [], ◌∷◌, ◌++◌, ◌==◌, ◌&&◌,
  ◌||◌, ltb, if◌then◌else◌, ◌⊎◌, inl, inr,
}
use ai_email_support_agent.Core.Transitions.{
  TicketStatus, ticket_eq, triaged, awaiting_review, auto_sending, DraftStatus, pending, approved,
  superseded, expired, AgentRunStatus, succeeded, OutboundSendStatus, queued,
}
use ai_email_support_agent.Db.Tables.{
  NeedsOwnerReason, Ticket, Text, Actor, AuditAction, DedupeKey, draft_review, auto_send, Tables,
  find_ticket, update_ticket, always, audit, has_key, provider_unavailable,
}
use ai_email_support_agent.Db.Escalations.{EscalateTicketParams, Escalated, escalate_ticket}
use ai_email_support_agent.Db.Drafts.{
  Draft, DecisionSource, OutboundSend, ResolvedAnswer, live_on, count_live, count_of, hold_sends,
  flag_answers,
}
use ai_email_support_agent.Worker.Claim.{stamp_finished}
use ai_email_support_agent.Worker.Gate.{Ledger, finish_run}

pub record Store : Type 0 where
  pub tables : Tables
  pub ledger : Ledger
  pub drafts : List Draft
  pub sends : List OutboundSend
  pub answers : List ResolvedAnswer

pub record OutcomeContext : Type 0 where
  pub ticket_id : ℕ
  pub run_id : ℕ
  pub agent_id : ℕ
  pub now : ℕ
  pub finished_at : ℕ
  pub day : ℕ
  pub thread_snapshot_at : Option ℕ

-- Settles the run; a run that the sweep settled before is only logged.
unfoldable pub settle_run : OutcomeContext → Store → Store
settle_run ctx s = record s { ledger = (finish_run ctx.run_id succeeded s.ledger).1 }

-- The end of every landing.
unfoldable pub finalize : OutcomeContext → Store → Store
unfolding settle_run
finalize ctx s =
    let s' = settle_run ctx s in
    record s' {
      tables = stamp_finished ctx.ticket_id ctx.thread_snapshot_at ctx.finished_at s'.tables;
    }

abbrev pub run_actor : OutcomeContext → Actor
run_actor ctx = Actor.agent_run ctx.run_id

unfoldable pub run_escalation :
    OutcomeContext → NeedsOwnerReason → Bool → Option ℕ → EscalateTicketParams
run_escalation ctx reason quiet draft_id = record {
  ticket_id = ctx.ticket_id;
  from_status = triaged;
  reason = reason;
  day = ctx.day;
  dedupe_key = none;
  now = ctx.now;
  quiet = quiet;
  draft_id = draft_id;
  actor = run_actor ctx;
  audit_action = AuditAction.ticket_escalated;
}

unfoldable pub audit_lost_escalation : OutcomeContext → Escalated → Tables → Tables
audit_lost_escalation ctx r t =
    if r.escalated
    then t
    else audit (run_actor ctx) AuditAction.draft_escalate_lost_race ctx.ticket_id t

unfoldable pub apply_escalate_outcome : OutcomeContext → Store → Option ℕ × Store
apply_escalate_outcome ctx s =
    let (r, t) =
      escalate_ticket (run_escalation ctx NeedsOwnerReason.agent_escalated false none) s.tables in
    (r.notification_id, finalize ctx (record s { tables = audit_lost_escalation ctx r t }))

-- `last_inbound_at > snapshot ?? epoch`, false on NULL.
abbrev pub newer_than : Option ℕ → Option ℕ → Bool
newer_than none snapshot = false
newer_than (some inbound) none = ltb 0 inbound
newer_than (some inbound) (some snapshot) = ltb snapshot inbound

unfoldable pub unseen_guard : Option ℕ → Ticket → Bool
unseen_guard snapshot t = ticket_eq t.status triaged && newer_than t.last_inbound_at snapshot

unfoldable pub clear_run_stamp : Ticket → Ticket
clear_run_stamp t = record t { last_agent_run_at = none }

unfoldable pub note_no_reply : OutcomeContext → Tables → Tables
note_no_reply ctx t =
    let t' = audit (run_actor ctx) AuditAction.draft_no_reply ctx.ticket_id t in
    record t' {
      tickets =
          (update_ticket ctx.ticket_id (unseen_guard ctx.thread_snapshot_at) clear_run_stamp
            t'.tickets).0;
    }

unfoldable pub apply_no_reply_outcome : OutcomeContext → Bool → Store → Option ℕ × Store
apply_no_reply_outcome ctx owner_feedback_pending s =
    if owner_feedback_pending
    then (let (r, t) =
          escalate_ticket (run_escalation ctx NeedsOwnerReason.redraft_unfulfilled false none)
            s.tables in
        (r.notification_id, finalize ctx (record s { tables = t })))
    else (none, finalize ctx (record s { tables = note_no_reply ctx s.tables }))

-- No provider for the agent, found before the claim: one page for the ticket, the reason and the day.
unfoldable pub escalate_provider_unavailable : ℕ → ℕ → ℕ → Tables → Option ℕ × Tables
escalate_provider_unavailable ticket_id day now t =
    let (r, t') =
      escalate_ticket
        (record {
          ticket_id = ticket_id;
          from_status = triaged;
          reason = NeedsOwnerReason.provider_unavailable;
          day = day;
          dedupe_key = some (DedupeKey.provider_unavailable ticket_id day);
          now = now;
          quiet = false;
          draft_id = none;
          actor = Actor.ticket_draft;
          audit_action = AuditAction.ticket_escalated;
        })
        t in
    (r.notification_id, t')

pub data DraftLanding : Type 0 where
  review : DraftLanding
  escalate : NeedsOwnerReason → Bool → DraftLanding
  auto : ℕ → Bool → DraftLanding

pub record DraftRowInput : Type 0 where
  pub body : Text
  pub category_id : Option ℕ
  pub memory_conflict_ids : List ℕ
  pub is_redraft : Bool

-- A lost race, under its audit action, or the unique violation of the one-live-draft index.
pub data LandingError : Type 0 where
  propose_lost_race escalate_lost_race live_draft_exists : LandingError

-- DRAFT_RETIREMENT; `sending` is not retired.
abbrev pub draft_retirement : DraftStatus → Option DraftStatus
draft_retirement pending = some superseded
draft_retirement approved = some superseded
draft_retirement DraftStatus.held = some expired
draft_retirement _ = none

abbrev pub retirement_action : DraftStatus → AuditAction
retirement_action superseded = AuditAction.draft_superseded
retirement_action _ = AuditAction.draft_expired

-- One live draft: its new status, its sends held, its audit row. The row is locked, so the guarded
-- update always finds it as it was read.
unfoldable pub retire_to : OutcomeContext → Option DraftStatus → Draft → Store → Draft × Store
retire_to ctx none d s = (d, s)
retire_to ctx (some to) d s = (
  record d { status = to },
  record s {
    sends = hold_sends d.id s.sends;
    tables = audit (run_actor ctx) (retirement_action to) d.id s.tables;
  },
)

unfoldable pub retire_one : OutcomeContext → Draft → Store → Draft × Store
unfolding retire_to
retire_one ctx d s =
    if live_on ctx.ticket_id d then retire_to ctx (draft_retirement d.status) d s else (d, s)

-- The loop over the ticket's live drafts, which rewrites the rows in place.
unfoldable pub retire_all : OutcomeContext → List Draft → Store → List Draft × Store
retire_all ctx [] s = ([], s)
retire_all ctx (d ∷ ds) s =
    let (d', s₁) = retire_one ctx d s in let (ds', s₂) = retire_all ctx ds s₁ in (d' ∷ ds', s₂)

abbrev pub or_epoch : Option ℕ → ℕ
or_epoch none = 0
or_epoch (some t) = t

abbrev pub draft_expire_days : ℕ
draft_expire_days = 7

abbrev pub initial_status : DraftLanding → DraftStatus
initial_status (auto send_after push) = approved
initial_status _ = pending

abbrev pub final_body_of : DraftLanding → Text → Option Text
final_body_of (auto send_after push) body = some body
final_body_of _ body = none

abbrev pub decision_source_of : DraftLanding → Option DecisionSource
decision_source_of (auto send_after push) = some DecisionSource.auto
decision_source_of _ = none

abbrev pub auto_decided_of : DraftLanding → ℕ → Option ℕ
auto_decided_of (auto send_after push) now = some now
auto_decided_of _ now = none

unfoldable pub new_draft : OutcomeContext → DraftLanding → DraftRowInput → ℕ → List Draft → Draft
new_draft ctx landing row id drafts = record {
  id = id;
  ticket_id = ctx.ticket_id;
  agent_id = some ctx.agent_id;
  agent_run_id = ctx.run_id;
  version = 1 + count_of ctx.ticket_id drafts;
  body = row.body;
  final_body = final_body_of landing row.body;
  status = initial_status landing;
  category_id = row.category_id;
  viewed_at = none;
  decided_at = auto_decided_of landing ctx.finished_at;
  decision_source = decision_source_of landing;
  auto_decided_at = auto_decided_of landing ctx.finished_at;
  auto_held_at = none;
  thread_snapshot_at = or_epoch ctx.thread_snapshot_at;
  is_redraft = row.is_redraft;
  expires_at = ctx.now + draft_expire_days * 86400000;
}
