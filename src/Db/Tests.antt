-- ===== src/Db/Tests.antt =====
-- packages/db/src: runs on concrete tables.
use ai_email_support_agent.Base.{true, false, none, some, [], ◌∷◌, ◌≡◌, refl, ◌⊎◌}
use ai_email_support_agent.Core.Billing.{LlmMode}
use ai_email_support_agent.Core.Transitions.{TicketStatus}
use ai_email_support_agent.Db.Tables.{
  Ticket, NeedsOwnerReason, Actor, AuditAction, Tables, find_ticket,
}
use ai_email_support_agent.Db.Escalations.{EscalateTicketParams, escalate_ticket}
use ai_email_support_agent.Db.Escalations.Guarded.{escalate_ticket-once}
use ai_email_support_agent.Db.Metering.{MeterRecord, Usage, record_call, sum_meter}
use ai_email_support_agent.Db.Metering.Books.{Balanced, total, record_call-Balanced}

abbrev waiting : Ticket
waiting = record {
  id = 5;
  connection_id = 1;
  provider_thread_id = 70;
  agent_id = some 3;
  customer_email = none;
  subject = none;
  status = TicketStatus.triaged;
  needs_owner_reason = none;
  spam_flagged = false;
  is_automated = none;
  has_attachments = false;
  inbound_count = 1;
  last_inbound_at = some 1000;
  triage_failure_count = 0;
  last_agent_run_at = none;
  last_agent_prompted_at = none;
  last_agent_finished_at = none;
  agent_failure_count = 0;
  owner_redraft_feedback = none;
  redraft_count = 0;
  escalation_notified_at = none;
  ai_handled_month = none;
  created_at = 900;
}

abbrev one_ticket : Tables
one_ticket = record { tickets = waiting ∷ []; notifications = []; audits = []; next_id = 40 }

abbrev escalation_of : TicketStatus → EscalateTicketParams
escalation_of status = record {
  ticket_id = 5;
  from_status = status;
  reason = NeedsOwnerReason.agent_failed;
  day = 20000;
  dedupe_key = none;
  now = 2000;
  quiet = false;
  draft_id = none;
  actor = Actor.ticket_draft;
  audit_action = AuditAction.ticket_escalated;
}

-- The owner's own escalation of the ticket, quiet and for another reason.
abbrev takeover : EscalateTicketParams
takeover = record (escalation_of TicketStatus.triaged) {
  reason = NeedsOwnerReason.owner_handling;
  quiet = true;
  actor = Actor.owner;
}

escalate_ticket-once_example :
    let s' = (escalate_ticket (escalation_of TicketStatus.triaged) one_ticket).1 in
    (escalate_ticket takeover s' ≡ (record { escalated = false; notification_id = none }, s'))
    × ((true ≡ false) × (s' ≡ one_ticket)
        ⊎ ((escalate_ticket (escalation_of TicketStatus.triaged) one_ticket).0.escalated ≡ true)
          × (find_ticket 5 s'.tickets
              ≡ some (record waiting {
                status = TicketStatus.needs_owner;
                needs_owner_reason = some NeedsOwnerReason.agent_failed;
                escalation_notified_at = none;
                owner_redraft_feedback = none;
                redraft_count = 0;
              })))
unfolding find_ticket
escalate_ticket-once_example =
    escalate_ticket-once (escalation_of TicketStatus.triaged) takeover one_ticket waiting refl refl
      refl refl

abbrev tenant_call : MeterRecord
tenant_call = record {
  idempotency_key = 11;
  mode = LlmMode.byok;
  cost_micros = 350;
  input_tokens = 90;
  cache_read_tokens = 10;
  cache_write_tokens = 5;
  output_tokens = 20;
}

abbrev no_usage : Usage
no_usage = record { calls = []; counters = [] }

no_usage-Balanced : Balanced no_usage
unfolding sum_meter total
no_usage-Balanced = record {
  calls = refl;
  managed_cost = refl;
  byok_cost = refl;
  input = refl;
  output = refl;
  once = tt;
}

record_call-Balanced_example : Balanced (record_call 20000 tenant_call no_usage)
record_call-Balanced_example = record_call-Balanced 20000 tenant_call no_usage no_usage-Balanced
