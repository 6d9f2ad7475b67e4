-- ===== src/Api/Drafts/Reject.antt =====
-- apps/api/src/drafts/service.ts: where a rejection leaves the ticket.
use ai_email_support_agent.Base.{
  ℕ, ◌≡◌, refl, Bool, true, false, Option, none, some, inl, inr, arith, Bool-cases, Option-cases,
  hits, updated, find_row,
}
use ai_email_support_agent.Core.Transitions.{awaiting_review, DraftStatus}
use ai_email_support_agent.Core.Redraft.{RejectResolution, escalate_terminal, escalate_limit}
use ai_email_support_agent.Db.Tables.{Text, Ticket, find_ticket, update_ticket, audit}
use ai_email_support_agent.Db.Tables.Rows.{find_ticket-update}
use ai_email_support_agent.Db.Escalations.{from_guard, escalated_row}
use ai_email_support_agent.Db.Escalations.Guarded.{escalate_ticket-find}
use ai_email_support_agent.Db.Drafts.{Draft}
use ai_email_support_agent.Db.Sends.{World, enqueue, enqueue_page, audit_in, draft_id}
use ai_email_support_agent.Worker.Send.Land.{draft_in}
use ai_email_support_agent.Api.Drafts.{Desk, DraftActor, AnswerHolds}
use ai_email_support_agent.Api.Drafts.Decide.{ticket_in}
use ai_email_support_agent.Api.Drafts.Refuse.{
  RejectInput, redraft_row, reject_escalation, escalate_rejected, reject_terminal, reject_redraft,
  reject_resolved, reject_ticket, reject_found, reject_draft,
}

abbrev pub in_review : ℕ → World → Bool
in_review ticket w = hits (ticket_in awaiting_review) (find_ticket ticket w.tables.tickets)

enqueue_page-tickets :
    (n : Option ℕ) (w : World) → (enqueue_page n w).tables.tickets ≡ w.tables.tickets
unfolding enqueue
enqueue_page-tickets none w = refl
enqueue_page-tickets (some n) w = refl

-- A quiet escalation or a loud one: the ticket is in the review queue no more.
escalated-left :
    (at_limit : Bool) (ticket draft day now : ℕ) (o : Option Ticket)
    → hits (ticket_in awaiting_review) (
        updated
          (from_guard (reject_escalation at_limit ticket draft day now))
          (escalated_row (reject_escalation at_limit ticket draft day now))
          o)
      ≡ false
unfolding from_guard escalated_row reject_escalation
escalated-left at_limit ticket draft day now none = refl
escalated-left at_limit ticket draft day now (some t) = ground arith

escalate_rejected-left :
    (at_limit : Bool) (ticket draft day now : ℕ) (w : World)
    → in_review ticket (escalate_rejected (reject_escalation at_limit ticket draft day now) w).1
      ≡ false
unfolding escalate_rejected reject_escalation
escalate_rejected-left at_limit ticket draft day now w =
    elim (Bool-cases (hits (ticket_in awaiting_review) (find_ticket ticket w.tables.tickets))) [
      | inr gone ↦ rw gone gone
      | inl here ↦ rw here (
          rw (escalate_ticket-find (reject_escalation at_limit ticket draft day now) w.tables)
            (escalated-left at_limit ticket draft day now (find_ticket ticket w.tables.tickets)))
    ]

redrafted-left :
    (reason : Text) (o : Option Ticket)
    → hits (ticket_in awaiting_review) (updated (ticket_in awaiting_review) (redraft_row reason) o)
      ≡ false
unfolding redraft_row
redrafted-left reason none = refl
redrafted-left reason (some t) = ground arith

module _ (trim : Text → Text) (learn : Draft → World → Option ℕ × World)
    (learn-tickets : (d : Draft) (w : World)
      → (learn d w).1.tables.tickets ≡ w.tables.tickets) where
  reject_terminal-left :
      (at_limit : Bool) (draft : Draft) (day now : ℕ) (w : World)
      → in_review draft.ticket_id (reject_terminal trim learn at_limit draft day now w).1 ≡ false
  unfolding reject_terminal audit_in audit escalate_rejected
  reject_terminal-left at_limit draft day now w =
      rw (enqueue_page-tickets, enqueue_page-tickets, learn-tickets)
        (escalate_rejected-left at_limit draft.ticket_id draft.id day now w)

  reject_redraft-left :
      (draft : Draft) (reason : Text) (day now : ℕ) (w : World)
      → in_review draft.ticket_id (reject_redraft trim learn draft reason day now w).1 ≡ false
  unfolding reject_redraft audit_in audit enqueue redraft_row find_ticket
  reject_redraft-left draft reason day now w =
      elim (Bool-cases
        (update_ticket draft.ticket_id (ticket_in awaiting_review) (redraft_row reason)
          w.tables.tickets).1) [
            | inr missed ↦ rw missed (reject_terminal-left false draft day now w)
            | inl moved ↦ rw moved (
                rw (enqueue_page-tickets, learn-tickets)
                  (rw
                    (find_ticket-update (ticket_in awaiting_review) (redraft_row reason) (λ t. refl)
                      draft.ticket_id w.tables.tickets)
                    (redrafted-left reason (find_ticket draft.ticket_id w.tables.tickets))))
          ]

  reject_resolved-left :
      (resolution : RejectResolution) (draft : Draft) (reason : Text) (day now : ℕ) (w : World)
      → in_review draft.ticket_id (reject_resolved trim learn resolution draft reason day now w).1
        ≡ false
  unfolding reject_resolved
  reject_resolved-left RejectResolution.redraft draft reason day now w =
      reject_redraft-left draft reason day now w
  reject_resolved-left escalate_limit draft reason day now w =
      reject_terminal-left true draft day now w
  reject_resolved-left escalate_terminal draft reason day now w =
      reject_terminal-left false draft day now w

  -- A rejection that is answered never leaves the draft's ticket in the review queue: it is handed back
  -- for a re-draft, escalated, or was moved before; if what the rejection teaches leaves tickets alone.
  pub reject_draft-never_dangling :
      (input : RejectInput) (actor : DraftActor) (day now : ℕ) (d : Desk) (draft : Draft)
      → find_row draft_id input.draft_id d.world.drafts ≡ some draft
      → AnswerHolds
          (λ resolution d'. in_review draft.ticket_id d'.world ≡ false)
          (reject_draft trim learn input actor day now d)
  unfolding reject_draft reject_found reject_ticket
  reject_draft-never_dangling input actor day now d draft found =
      elim (Bool-cases (draft_in DraftStatus.pending draft)) [
        | inr decided ↦ rw (found, decided) tt
        | inl pending ↦ elim (Option-cases (find_ticket draft.ticket_id d.world.tables.tickets)) [
          | inl missing ↦ rw (found, pending, missing) tt
          | inr (ticket, here) ↦
              rw (found, pending, here) (reject_resolved-left _ draft input.reason day now _)
        ]
      ]
