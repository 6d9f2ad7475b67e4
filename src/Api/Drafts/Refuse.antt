-- ===== src/Api/Drafts/Refuse.antt =====
-- apps/api/src/drafts/service.ts: `rejectDraft`.
use ai_email_support_agent.Base.{
  ℕ, ◌+◌, Bool, true, false, not, Option, none, some, ◌&&◌, if◌then◌else◌, find_row, hits,
}
use ai_email_support_agent.Core.Transitions.{triaged, awaiting_review, DraftStatus}
use ai_email_support_agent.Core.Redraft.{
  RejectAction, RejectResolution, escalate_terminal, escalate_limit, resolve_reject_action,
  invariants,
}
use ai_email_support_agent.Db.Tables.{
  Text, Ticket, Actor, AuditAction, DedupeKey, NeedsOwnerReason, find_ticket, update_ticket,
}
use ai_email_support_agent.Db.Escalations.{EscalateTicketParams, Escalated, escalate_ticket}
use ai_email_support_agent.Db.Drafts.{Draft}
use ai_email_support_agent.Db.Sends.{
  World, Job, draft_id, enqueue, enqueue_page, update_draft, audit_in,
}
use ai_email_support_agent.Worker.Send.Land.{draft_in}
use ai_email_support_agent.Api.Drafts.{
  Desk, DraftActor, not_found, not_pending, Answer, refused, answered,
}
use ai_email_support_agent.Api.Drafts.Decide.{ticket_in}

-- rejectDraft

pub record RejectInput : Type 0 where
  pub draft_id : ℕ
  pub reason : Text
  pub action : RejectAction

abbrev reject_set : DraftActor → ℕ → Draft → Draft
reject_set actor now d = record d {
  status = DraftStatus.rejected;
  decided_at = some now;
  decision_source = some actor.source;
}

-- A re-draft keeps `last_agent_prompted_at`, the stamp of the run cap.
unfoldable pub redraft_row : Text → Ticket → Ticket
redraft_row reason t = record t {
  status = triaged;
  owner_redraft_feedback = some reason;
  redraft_count = t.redraft_count + 1;
  agent_failure_count = 0;
  last_agent_run_at = none;
  last_agent_finished_at = none;
}

abbrev is_redraft : RejectResolution → Bool
is_redraft RejectResolution.redraft = true
is_redraft _ = false

abbrev is_limit : RejectResolution → Bool
is_limit escalate_limit = true
is_limit _ = false

unfoldable pub reject_escalation : Bool → ℕ → ℕ → ℕ → ℕ → EscalateTicketParams
reject_escalation at_limit ticket draft day now = record {
  ticket_id = ticket;
  from_status = awaiting_review;
  reason =
      if at_limit then NeedsOwnerReason.redraft_limit_reached else NeedsOwnerReason.owner_handling;
  day = day;
  dedupe_key = if at_limit then some (DedupeKey.redraft_limit ticket day) else none;
  now = now;
  quiet = not at_limit;
  draft_id = some draft;
  actor = Actor.owner;
  audit_action = AuditAction.ticket_escalated;
}

unfoldable pub escalate_rejected : EscalateTicketParams → World → Escalated × World
escalate_rejected p w =
    let (r, t) = escalate_ticket p w.tables in
    if hits (ticket_in awaiting_review) (find_ticket p.ticket_id w.tables.tickets)
    then (r, record w { tables = t })
    else (record { escalated = false; notification_id = none }, w)

-- `trim` is JavaScript's; `learn` is what a rejection teaches: the strikes on the answers that were
-- used, the guidance line and the check of the category's demotion, on rows that are not modelled here.
module _ (trim : Text → Text) (learn : Draft → World → Option ℕ × World) where
  -- The ticket's flip for a re-draft missed, or the resolution is not a re-draft.
  unfoldable pub reject_terminal : Bool → Draft → ℕ → ℕ → World → RejectResolution × World
  reject_terminal at_limit draft day now w =
      let (r, w₁) =
        escalate_rejected (reject_escalation at_limit draft.ticket_id draft.id day now) w in
      let (n, w₂) = learn draft w₁ in
      (
        if at_limit && r.escalated then escalate_limit else escalate_terminal,
        enqueue_page n (
            enqueue_page r.notification_id
              (audit_in Actor.owner AuditAction.draft_rejected draft.id w₂)),
      )

  unfoldable pub reject_redraft : Draft → Text → ℕ → ℕ → World → RejectResolution × World
  reject_redraft draft reason day now w =
      let (ts, moved) =
        update_ticket draft.ticket_id (ticket_in awaiting_review) (redraft_row reason)
          w.tables.tickets in
      let (n, w') = learn draft (record w { tables = record w.tables { tickets = ts } }) in
      if moved
      then (
        RejectResolution.redraft,
        enqueue_page n (
            enqueue (Job.ticket_draft draft.ticket_id)
              (audit_in Actor.owner AuditAction.draft_rejected_for_redraft draft.id w')),
      )
      else reject_terminal false draft day now w

  unfoldable pub reject_resolved :
      RejectResolution → Draft → Text → ℕ → ℕ → World → RejectResolution × World
  reject_resolved resolution draft reason day now w =
      if is_redraft resolution
      then reject_redraft draft reason day now w
      else reject_terminal (is_limit resolution) draft day now w

  abbrev answer_with : Desk → RejectResolution × World → Answer RejectResolution
  answer_with d (resolution, w) = answered resolution (record d { world = w })

  unfoldable pub reject_ticket :
      RejectInput → DraftActor → ℕ → ℕ → Draft → Option Ticket → Desk → Answer RejectResolution
  reject_ticket input actor day now draft none d = refused not_found
  reject_ticket input actor day now draft (some ticket) d = answer_with d (
      reject_resolved
        (resolve_reject_action trim invariants.redraft_max input.reason input.action
          ticket.redraft_count ticket.status)
        draft input.reason day now
        (update_draft draft.id (draft_in DraftStatus.pending) (reject_set actor now) d.world))

  unfoldable pub reject_found :
      RejectInput → DraftActor → ℕ → ℕ → Option Draft → Desk → Answer RejectResolution
  reject_found input actor day now none d = refused not_found
  reject_found input actor day now (some draft) d =
      if draft_in DraftStatus.pending draft
      then reject_ticket input actor day now draft
          (find_ticket draft.ticket_id d.world.tables.tickets) d
      else refused not_pending

  unfoldable pub reject_draft : RejectInput → DraftActor → ℕ → ℕ → Desk → Answer RejectResolution
  reject_draft input actor day now d =
      reject_found input actor day now (find_row draft_id input.draft_id d.world.drafts) d
