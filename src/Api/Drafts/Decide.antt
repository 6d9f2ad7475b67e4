-- ===== src/Api/Drafts/Decide.antt =====
-- apps/api/src/drafts/service.ts: undo (`holdDraft`) and back to review (`resumeDraft`).
use ai_email_support_agent.Base.{
  ℕ, Bool, true, false, not, Option, none, some, List, [], ◌∷◌, ◌==◌, ◌&&◌, ◌||◌, if◌then◌else◌,
  find_row, update_row,
}
use ai_email_support_agent.Core.Transitions.{
  TicketStatus, ticket_eq, triaged, awaiting_review, auto_sending, needs_owner, DraftStatus,
  OutboundSendStatus, queued, claimed, sent,
}
use ai_email_support_agent.Db.Tables.{Ticket, Actor, AuditAction, NeedsOwnerReason, find_ticket}
use ai_email_support_agent.Db.Drafts.{Draft, OutboundSend, live_on}
use ai_email_support_agent.Db.Sends.{World, send_id, draft_id, update_draft, audit_in}
use ai_email_support_agent.Worker.Send.{is_auto, is_status}
use ai_email_support_agent.Worker.Send.Land.{draft_in, move_draft, update_ticket_in}
use ai_email_support_agent.Api.Drafts.{
  Desk, not_found, not_holdable, too_late, not_resumable, Answer, refused, answered,
  consume_action_token, send_of,
}

-- holdDraft

abbrev to_held : OutboundSend → OutboundSend
to_held s = record s { status = OutboundSendStatus.held }

abbrev stamp_auto_held : ℕ → Draft → Draft
stamp_auto_held now d = record d { auto_held_at = some now }

abbrev set_ticket : TicketStatus → Ticket → Ticket
set_ticket status t = record t { status = status }

abbrev pub ticket_in : TicketStatus → Ticket → Bool
ticket_in status t = ticket_eq t.status status

unfoldable pub pull_back : ℕ → Draft → World → World
pull_back now d w =
    if is_auto d.decision_source
    then update_ticket_in d.ticket_id (ticket_in auto_sending) (set_ticket awaiting_review)
        (update_draft d.id (draft_in DraftStatus.pending) (stamp_auto_held now) w)
    else w

-- approved → held → pending
unfoldable pub hold_writes : ℕ → Draft → World → World
hold_writes now d w = pull_back now d (
    update_draft d.id (draft_in DraftStatus.held) (move_draft DraftStatus.pending)
      (update_draft d.id (draft_in DraftStatus.approved) (move_draft DraftStatus.held) w))

unfoldable pub hold_queued : Option ℕ → ℕ → Draft → OutboundSend → Desk → Answer (Unit {0})
hold_queued token now draft send d =
    let (sends, hit) = update_row send_id send.id (is_status queued) to_held d.world.sends in
    if hit
    then consume_action_token token now
        (record d { world = hold_writes now draft (record d.world { sends = sends }) })
        (λ d'.
          answered tt
            (record d' { world = audit_in Actor.owner AuditAction.draft_held draft.id d'.world }))
    else refused too_late

unfoldable pub hold_sent : Option ℕ → ℕ → Draft → Option OutboundSend → Desk → Answer (Unit {0})
hold_sent token now draft none d = refused not_holdable
hold_sent token now draft (some send) d =
    if is_status claimed send || is_status sent send
    then refused too_late
    else if is_status queued send
    then hold_queued token now draft send d
    else refused not_holdable

unfoldable pub hold_found : Option ℕ → ℕ → Option Draft → Desk → Answer (Unit {0})
hold_found token now none d = refused not_found
hold_found token now (some draft) d =
    if draft_in DraftStatus.approved draft
    then hold_sent token now draft (send_of draft.id d.world.sends) d
    else refused not_holdable

unfoldable pub hold_draft : ℕ → Option ℕ → ℕ → Desk → Answer (Unit {0})
hold_draft draft token now d = hold_found token now (find_row draft_id draft d.world.drafts) d

-- resumeDraft

-- The other live drafts of the ticket.
unfoldable pub has_rival : ℕ → ℕ → List Draft → Bool
has_rival ticket self [] = false
has_rival ticket self (x ∷ xs) =
    (not (x.id == self) && live_on ticket x) || has_rival ticket self xs

abbrev is_send_failed : Option NeedsOwnerReason → Bool
is_send_failed (some NeedsOwnerReason.send_failed) = true
is_send_failed _ = false

abbrev failed_by_send : Ticket → Bool
failed_by_send t = ticket_in needs_owner t && is_send_failed t.needs_owner_reason

-- A failed draft is the owner's to bring back on such a ticket only.
abbrev pub owners_to_bring_back : Option Ticket → Bool
owners_to_bring_back none = false
owners_to_bring_back (some t) = ticket_in triaged t || failed_by_send t

abbrev returned : Ticket → Ticket
returned t = record t { status = awaiting_review; needs_owner_reason = none }

unfoldable pub walk_back_ticket : Draft → World → World
walk_back_ticket draft w =
    if draft_in DraftStatus.failed draft
    then update_ticket_in draft.ticket_id failed_by_send returned w
    else update_ticket_in draft.ticket_id (ticket_in auto_sending) (set_ticket awaiting_review) w

unfoldable pub resume_writes : Draft → World → World
resume_writes draft w = audit_in Actor.owner AuditAction.draft_resumed draft.id (
    walk_back_ticket draft
      (update_draft draft.id (draft_in draft.status) (move_draft DraftStatus.pending) w))

unfoldable pub resume_found : Option Draft → Desk → Answer (Unit {0})
resume_found none d = refused not_found
resume_found (some draft) d =
    if not (draft_in DraftStatus.held draft || draft_in DraftStatus.failed draft)
    then refused not_resumable
    else if has_rival draft.ticket_id draft.id d.world.drafts
    then refused not_resumable
    else if draft_in DraftStatus.failed draft
        && not (owners_to_bring_back (find_ticket draft.ticket_id d.world.tables.tickets))
    then refused not_resumable
    else answered tt (record d { world = resume_writes draft d.world })

unfoldable pub resume_draft : ℕ → Desk → Answer (Unit {0})
resume_draft draft d = resume_found (find_row draft_id draft d.world.drafts) d
