-- ===== src/Api/Drafts/Resolve.antt =====
-- apps/api/src/drafts/service.ts: `resolveTicket` and `markViewed`.
use ai_email_support_agent.Base.{
  ℕ, Bool, true, false, Option, none, some, List, [], ◌∷◌, ◌==◌, ◌&&◌, ◌||◌, if◌then◌else◌,
  find_row, update_row,
}
use ai_email_support_agent.Core.Transitions.{
  triaged, awaiting_review, needs_owner, resolved, DraftStatus, OutboundSendStatus,
}
use ai_email_support_agent.Db.Tables.{Ticket, Actor, AuditAction, update_ticket}
use ai_email_support_agent.Db.Drafts.{Draft, OutboundSend, SendError, is_holdable}
use ai_email_support_agent.Db.Sends.{World, draft_id, audit_in}
use ai_email_support_agent.Worker.Send.Land.{draft_in, move_draft, or_kept}
use ai_email_support_agent.Worker.Send.Complete.{with_cleared_cycle}
use ai_email_support_agent.Api.Drafts.Decide.{ticket_in}

-- resolveTicket

abbrev pub is_resolvable : Ticket → Bool
is_resolvable t = ticket_in needs_owner t || ticket_in awaiting_review t || ticket_in triaged t

-- DRAFT_RETIREMENT
abbrev pub retirement_of : DraftStatus → Option DraftStatus
retirement_of DraftStatus.pending = some DraftStatus.superseded
retirement_of DraftStatus.approved = some DraftStatus.superseded
retirement_of DraftStatus.held = some DraftStatus.expired
retirement_of _ = none

abbrev pub is_retirable : DraftStatus → Bool
is_retirable s = elim (retirement_of s) [ none ↦ false | some _ ↦ true ]

unfoldable pub find_retirable : ℕ → List Draft → Option Draft
find_retirable ticket [] = none
find_retirable ticket (x ∷ xs) =
    if x.ticket_id == ticket && is_retirable x.status then some x else find_retirable ticket xs

abbrev pub for_draft : ℕ → OutboundSend → Bool
for_draft draft s = s.draft_id == draft && is_holdable s.status

-- `UPDATE outbound_sends SET status = 'held', last_error = … WHERE draft_id = … AND status IN …`
unfoldable pub hold_for_resolve : ℕ → List OutboundSend → List OutboundSend
hold_for_resolve draft [] = []
hold_for_resolve draft (s ∷ ss) =
    let rest = hold_for_resolve draft ss in
    if for_draft draft s
    then record s { status = OutboundSendStatus.held; last_error = some SendError.ticket_resolved }
      ∷ rest
    else s ∷ rest

abbrev retired_action : DraftStatus → AuditAction
retired_action DraftStatus.superseded = AuditAction.draft_superseded
retired_action _ = AuditAction.draft_expired

unfoldable pub retire_draft : Draft → DraftStatus → World → World
retire_draft live to w =
    let (drafts, hit) =
      update_row draft_id live.id (draft_in live.status) (move_draft to) w.drafts in
    if hit
    then audit_in Actor.owner (retired_action to) live.id
        (record w { drafts = drafts; sends = hold_for_resolve live.id w.sends })
    else w

abbrev retire_as : Draft → Option DraftStatus → World → World
retire_as live none w = w
retire_as live (some to) w = retire_draft live to w

unfoldable pub retire_found : Option Draft → World → World
retire_found none w = w
retire_found (some live) w = retire_as live (retirement_of live.status) w

abbrev pub resolved_row : Ticket → Ticket
resolved_row t = with_cleared_cycle (record t { status = resolved })

unfoldable pub resolve_ticket : ℕ → World → Bool × World
resolve_ticket ticket w =
    let (ts, moved) = update_ticket ticket is_resolvable resolved_row w.tables.tickets in
    let live = find_retirable ticket w.drafts in
    if moved
    then (
      true,
      audit_in Actor.owner AuditAction.ticket_resolved ticket
          (retire_found live (record w { tables = record w.tables { tickets = ts } })),
    )
    else (false, w)

-- markViewed

abbrev first_view : ℕ → Draft → Draft
first_view now d = record d { viewed_at = some (or_kept d.viewed_at now) }

-- `row.viewedAt?.getTime() === now.getTime()`
abbrev viewed_now : ℕ → Option Draft → Bool
viewed_now now none = false
viewed_now now (some d) = elim d.viewed_at [ none ↦ false | some at ↦ at == now ]

abbrev audit_view : Bool → ℕ → World → World
audit_view true draft w = audit_in Actor.owner AuditAction.draft_viewed draft w
audit_view false draft w = w

unfoldable pub mark_viewed : ℕ → ℕ → World → Bool × World
mark_viewed draft now w =
    let (drafts, hit) =
      update_row draft_id draft (draft_in DraftStatus.pending) (first_view now) w.drafts in
    if hit
    then (
      true,
      audit_view (viewed_now now (find_row draft_id draft drafts)) draft
          (record w { drafts = drafts }),
    )
    else (false, w)
