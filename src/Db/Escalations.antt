-- ===== src/Db/Escalations.antt =====
-- packages/db/src/escalations.ts: the guarded transition of a ticket into `needs_owner`.
pub mod Guarded
use ai_email_support_agent.Base.{
  ℕ, suc, Bool, true, false, Option, none, some, List, [], ◌∷◌, ◌++◌, if◌then◌else◌,
}
use ai_email_support_agent.Core.Transitions.{TicketStatus, ticket_eq}
use ai_email_support_agent.Db.Tables.{
  NeedsOwnerReason, Ticket, DedupeKey, escalation, Actor, AuditAction, Tables, update_ticket, audit,
  has_key,
}

-- `dedupe_key` is `none` for the default, one page for a ticket and a UTC day.
pub record EscalateTicketParams : Type 0 where
  pub ticket_id : ℕ
  pub from_status : TicketStatus
  pub reason : NeedsOwnerReason
  pub day : ℕ
  pub dedupe_key : Option DedupeKey
  pub now : ℕ
  pub quiet : Bool
  pub draft_id : Option ℕ
  pub actor : Actor
  pub audit_action : AuditAction

unfoldable pub escalation_dedupe_key : ℕ → ℕ → DedupeKey
escalation_dedupe_key ticket_id day = escalation ticket_id day

-- `ON CONFLICT (dedupe_key) DO NOTHING RETURNING id`. The copy (title and body) is a function of the
-- reason, and only the reason is kept.
unfoldable pub insert_escalation_notification :
    ℕ → DedupeKey → NeedsOwnerReason → Option ℕ → Tables → Option ℕ × Tables
insert_escalation_notification ticket_id dedupe_key reason draft_id s =
    if has_key dedupe_key s.notifications then (none, s) else (
      some s.next_id,
      record s {
        notifications =
            s.notifications
            ++ record {
              id = s.next_id;
              reason = some reason;
              ticket_id = some ticket_id;
              draft_id = draft_id;
              dedupe_key = dedupe_key;
            }
              ∷ [];
        next_id = suc s.next_id;
      },
    )

abbrev pub or_default : Option DedupeKey → DedupeKey → DedupeKey
or_default (some k) d = k
or_default none d = d

-- The SET list of the guarded UPDATE; `clearRedraftCycle()` is spelled inline in the source too.
unfoldable pub escalated_row : EscalateTicketParams → Ticket → Ticket
escalated_row p t = record t {
  status = TicketStatus.needs_owner;
  needs_owner_reason = some p.reason;
  escalation_notified_at = if p.quiet then some p.now else none;
  owner_redraft_feedback = none;
  redraft_count = 0;
}

unfoldable pub from_guard : EscalateTicketParams → Ticket → Bool
from_guard p t = ticket_eq t.status p.from_status

pub record Escalated : Type 0 where
  pub escalated : Bool
  pub notification_id : Option ℕ

-- The writes after the flip.
unfoldable pub escalate_tail : EscalateTicketParams → Tables → Escalated × Tables
unfolding audit insert_escalation_notification escalation_dedupe_key
escalate_tail p s =
    let s₁ = audit p.actor p.audit_action p.ticket_id s in
    if p.quiet
    then (record { escalated = true; notification_id = none }, s₁)
    else (let (n, s₂) =
          insert_escalation_notification p.ticket_id
            (or_default p.dedupe_key (escalation_dedupe_key p.ticket_id p.day)) p.reason p.draft_id
            s₁ in
        (record { escalated = true; notification_id = n }, s₂))

unfoldable pub escalate_ticket : EscalateTicketParams → Tables → Escalated × Tables
escalate_ticket p s =
    let (tickets, hit) = update_ticket p.ticket_id (from_guard p) (escalated_row p) s.tickets in
    if hit
    then escalate_tail p (record s { tickets = tickets })
    else (record { escalated = false; notification_id = none }, s)
