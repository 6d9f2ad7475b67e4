-- ===== src/Worker/Send/Land.antt =====
-- apps/worker/src/jobs/send-execute.ts: the landings of a run that does not deliver. Each is one
-- transaction, and the jobs that it enqueues follow the commit.
use ai_email_support_agent.Base.{
  ℕ, Bool, true, false, not, Option, none, some, ◌==◌, ◌&&◌, ◌||◌, if◌then◌else◌, find_row,
  update_row,
}
use ai_email_support_agent.Core.Transitions.{
  TicketStatus, ticket_eq, triaged, awaiting_review, auto_sending, DraftStatus, draft_eq,
  OutboundSendStatus, sent, claimed,
}
use ai_email_support_agent.Db.Tables.{
  Ticket, NeedsOwnerReason, DedupeKey, Actor, AuditAction, find_ticket, update_ticket,
}
use ai_email_support_agent.Db.Escalations.{EscalateTicketParams, escalate_ticket}
use ai_email_support_agent.Db.Drafts.{Draft, OutboundSend, KillLever, SendError}
use ai_email_support_agent.Db.Sends.{
  World, Job, send_id, enqueue, enqueue_page, update_draft, audit_in, insert_page,
}
use ai_email_support_agent.Worker.Send.{is_status}

pub record Landing : Type 0 where
  pub send_id : ℕ
  pub draft_id : ℕ
  pub ticket_id : ℕ
  pub connection_id : ℕ
  pub ticket_status : TicketStatus
  pub now : ℕ
  pub day : ℕ

-- The ticket status that a send walks back from.
unfoldable pub ticket_from : TicketStatus → TicketStatus
ticket_from status = if ticket_eq status auto_sending then auto_sending else awaiting_review

unfoldable pub is_sending_status : Ticket → Bool
is_sending_status t = ticket_eq t.status awaiting_review || ticket_eq t.status auto_sending

unfoldable pub not_sent : OutboundSend → Bool
not_sent s = not (is_status sent s)

abbrev pub or_kept {ℓ} : {A : Type ℓ} → Option A → A → A
or_kept (some a) b = a
or_kept none b = b

-- The SET list that releases the claim.
unfoldable pub released : OutboundSendStatus → SendError → Option ℕ → OutboundSend → OutboundSend
released status error send_after s = record s {
  status = status;
  last_error = some error;
  claimed_at = none;
  claim_expires_at = none;
  claim_token = none;
  send_after = or_kept send_after s.send_after;
}

unfoldable pub set_send_status :
    ℕ → OutboundSendStatus → SendError → Option ℕ → World → Bool × World
set_send_status send status error send_after w =
    let (sends, hit) =
      update_row send_id send not_sent (released status error send_after) w.sends in
    (hit, record w { sends = sends })

abbrev pub draft_in : DraftStatus → Draft → Bool
draft_in status d = draft_eq d.status status

abbrev pub awaits_delivery : Draft → Bool
awaits_delivery d = draft_in DraftStatus.approved d || draft_in DraftStatus.sending d

abbrev pub move_draft : DraftStatus → Draft → Draft
move_draft status d = record d { status = status }

unfoldable pub walk_back_draft : DraftStatus → ℕ → World → World
walk_back_draft status draft w = update_draft draft awaits_delivery (move_draft status) w

-- A landing that finds the send `sent` writes nothing else.
abbrev pub unless_sent : Bool × World → (World → Option ℕ × World) → World → Option ℕ × World
unless_sent (true, w') k w = k w'
unless_sent (false, _) k w = (none, w)

abbrev pub then_page : Option ℕ × World → World
then_page (n, w) = enqueue_page n w

unfoldable pub held_writes : Landing → World → Option ℕ × World
held_writes l w =
    insert_page (some l.ticket_id) (some l.draft_id) (DedupeKey.send_held l.send_id l.day) (
      audit_in Actor.send_execute AuditAction.send_held l.send_id
        (walk_back_draft DraftStatus.held l.draft_id w))

unfoldable pub land_held : Landing → KillLever → World → World
land_held l lever w = then_page (
    unless_sent (set_send_status l.send_id OutboundSendStatus.held (SendError.held_by lever) none w)
      (held_writes l) w)

unfoldable pub send_failed_escalation : ℕ → ℕ → TicketStatus → ℕ → ℕ → EscalateTicketParams
send_failed_escalation ticket draft status day now = record {
  ticket_id = ticket;
  from_status = ticket_from status;
  reason = NeedsOwnerReason.send_failed;
  day = day;
  dedupe_key = some (DedupeKey.send_failed ticket day);
  now = now;
  quiet = false;
  draft_id = some draft;
  actor = Actor.send_execute;
  audit_action = AuditAction.ticket_escalated;
}

unfoldable pub escalate_in : EscalateTicketParams → World → Option ℕ × World
escalate_in p w =
    let (r, t) = escalate_ticket p w.tables in (r.notification_id, record w { tables = t })

unfoldable pub terminal_writes : Landing → Bool → World → Option ℕ × World
terminal_writes l escalate w =
    if escalate
    then escalate_in (send_failed_escalation l.ticket_id l.draft_id l.ticket_status l.day l.now) (
        audit_in Actor.send_execute AuditAction.send_failed l.send_id
          (walk_back_draft DraftStatus.failed l.draft_id w))
    else (none, audit_in Actor.send_execute AuditAction.send_failed l.send_id w)

unfoldable pub land_terminal : Landing → SendError → Bool → World → World
land_terminal l reason escalate w = then_page (
    unless_sent (set_send_status l.send_id OutboundSendStatus.failed reason none w)
      (terminal_writes l escalate) w)

-- The hand-back of a stale reply: the owner's correction stays on the ticket.
unfoldable pub handed_back : Ticket → Ticket
handed_back t = record t { status = triaged; last_agent_run_at = none; agent_failure_count = 0 }

unfoldable pub update_ticket_in : ℕ → (Ticket → Bool) → (Ticket → Ticket) → World → World
update_ticket_in k guard set w = record w {
  tables = record w.tables { tickets = (update_ticket k guard set w.tables.tickets).0 };
}

unfoldable pub stale_writes : Landing → World → Option ℕ × World
stale_writes l w =
    let (n, w') = insert_page (some l.ticket_id) none (DedupeKey.send_stale l.send_id) (
      audit_in Actor.send_execute AuditAction.send_stale l.send_id (
        update_ticket_in l.ticket_id is_sending_status handed_back
          (walk_back_draft DraftStatus.failed l.draft_id w))) in
    (none, enqueue (Job.ticket_draft l.ticket_id) (enqueue_page n w'))

-- The page and the re-draft are enqueued after the commit, if the landing was not skipped.
unfoldable pub land_stale : Landing → World → World
land_stale l w =
    (unless_sent (set_send_status l.send_id OutboundSendStatus.failed SendError.stale_thread none w)
      (stale_writes l) w).1

abbrev status_or_review : Option Ticket → TicketStatus
status_or_review (some t) = t.status
status_or_review none = awaiting_review

unfoldable pub dead_letter_writes : OutboundSend → ℕ → ℕ → World → Option ℕ × World
dead_letter_writes send day now w =
    let (_, w₁) = set_send_status send.id OutboundSendStatus.failed SendError.failure none w in
    let w₂ =
      audit_in Actor.send_execute AuditAction.send_dead_letter send.id
        (walk_back_draft DraftStatus.failed send.draft_id w₁) in
    escalate_in
      (send_failed_escalation send.ticket_id send.draft_id
        (status_or_review (find_ticket send.ticket_id w₂.tables.tickets)) day now)
      w₂

abbrev pub dead_letter_of : Option OutboundSend → ℕ → ℕ → World → Option ℕ × World
dead_letter_of none day now w = (none, w)
dead_letter_of (some send) day now w =
    if is_status sent send then (none, w) else dead_letter_writes send day now w

unfoldable pub land_dead_letter : ℕ → ℕ → ℕ → World → World
land_dead_letter send day now w =
    then_page (dead_letter_of (find_row send_id send w.sends) day now w)

abbrev pub has_token : ℕ → OutboundSend → Bool
has_token token s = elim s.claim_token [ none ↦ false | some t ↦ t == token ]

unfoldable pub collapse_guard : ℕ → OutboundSend → Bool
collapse_guard token s = is_status claimed s && has_token token s

unfoldable pub collapse_set : ℕ → OutboundSend → OutboundSend
collapse_set now s = record s { claim_expires_at = some now; last_error = some SendError.failure }

unfoldable pub collapse_claim_horizon : ℕ → ℕ → ℕ → World → World
collapse_claim_horizon send token now w = record w {
  sends = (update_row send_id send (collapse_guard token) (collapse_set now) w.sends).0;
}
