-- ===== src/Db/Escalations/Guarded.antt =====
-- packages/db/src/escalations.ts: both sides of the race for a ticket.
use ai_email_support_agent.Base.{
  ap, if◌then◌else◌, updated, hits, Bool, true, false, Option, none, some, ◌≡◌, refl, sym, ◌∙◌, ◌⊎◌,
  inl, inr, arith, Bool-cases,
}
use ai_email_support_agent.Core.Transitions.{TicketStatus, ticket_eq}
use ai_email_support_agent.Db.Tables.{Ticket, Tables, find_ticket, update_ticket}
use ai_email_support_agent.Db.Tables.Rows.{
  find_ticket-update, update_ticket-hits, update_ticket_miss,
}
use ai_email_support_agent.Db.Escalations.{
  EscalateTicketParams, escalate_ticket, escalate_tail, escalated_row, from_guard,
}

updated-miss :
    (guard : Ticket → Bool) (set : Ticket → Ticket) (o : Option Ticket)
    → hits guard o ≡ false
    → o ≡ updated guard set o
updated-miss guard set none h = refl
updated-miss guard set (some t) h = rw h

module _ (p : EscalateTicketParams) (s : Tables) where
  escalate_tail-tickets : (escalate_tail p s).1.tickets ≡ s.tickets
  unfolding escalate_tail
  escalate_tail-tickets = ground arith

  escalate_tail-escalated : (escalate_tail p s).0.escalated ≡ true
  unfolding escalate_tail
  escalate_tail-escalated = ground arith

escalated_row_id : (p : EscalateTicketParams) (t : Ticket) → (escalated_row p t).id ≡ t.id
unfolding escalated_row
escalated_row_id p t = refl

-- With the expected status missing, the call writes nothing at all.
pub escalate_ticket_miss :
    (p : EscalateTicketParams) (s : Tables)
    → hits (from_guard p) (find_ticket p.ticket_id s.tickets) ≡ false
    → escalate_ticket p s ≡ (record { escalated = false; notification_id = none }, s)
unfolding escalate_ticket
escalate_ticket_miss p s h =
    rw (update_ticket-hits (from_guard p) (escalated_row p) p.ticket_id s.tickets ∙ h)

escalate_ticket_hit :
    (p : EscalateTicketParams) (s : Tables)
    → hits (from_guard p) (find_ticket p.ticket_id s.tickets) ≡ true
    → escalate_ticket p s
      ≡ escalate_tail p (record s {
        tickets = (update_ticket p.ticket_id (from_guard p) (escalated_row p) s.tickets).0;
      })
unfolding escalate_ticket
escalate_ticket_hit p s h =
    rw (update_ticket-hits (from_guard p) (escalated_row p) p.ticket_id s.tickets ∙ h)

-- The tickets after the call: one guarded update.
pub escalate_ticket-tickets :
    (p : EscalateTicketParams) (s : Tables)
    → (escalate_ticket p s).1.tickets
      ≡ (update_ticket p.ticket_id (from_guard p) (escalated_row p) s.tickets).0
escalate_ticket-tickets p s =
    elim (Bool-cases (hits (from_guard p) (find_ticket p.ticket_id s.tickets))) [
      | inl hit ↦ rw (escalate_ticket_hit p s hit) (escalate_tail-tickets p _)
      | inr miss ↦
          rw (escalate_ticket_miss p s miss)
            (sym (update_ticket_miss (from_guard p) (escalated_row p) p.ticket_id s.tickets miss))
    ]

-- The call reports an escalation exactly where it found the expected status.
pub escalate_ticket-escalated :
    (p : EscalateTicketParams) (s : Tables)
    → (escalate_ticket p s).0.escalated ≡ hits (from_guard p) (find_ticket p.ticket_id s.tickets)
escalate_ticket-escalated p s =
    elim (Bool-cases (hits (from_guard p) (find_ticket p.ticket_id s.tickets))) [
      | inl hit ↦ rw (escalate_ticket_hit p s hit, hit) (escalate_tail-escalated p _)
      | inr miss ↦ rw (escalate_ticket_miss p s miss, miss) refl
    ]

-- The ticket's row after the call: the flip where the status was the expected one, else as it was.
pub escalate_ticket-find :
    (p : EscalateTicketParams) (s : Tables)
    → find_ticket p.ticket_id (escalate_ticket p s).1.tickets
      ≡ updated (from_guard p) (escalated_row p) (find_ticket p.ticket_id s.tickets)
escalate_ticket-find p s =
    elim (Bool-cases (hits (from_guard p) (find_ticket p.ticket_id s.tickets))) [
      | inl hit ↦
          rw (escalate_ticket_hit p s hit, escalate_tail-tickets)
            (find_ticket-update (from_guard p) (escalated_row p) (escalated_row_id p) p.ticket_id
              s.tickets)
      | inr miss ↦
          rw (escalate_ticket_miss p s miss)
            (updated-miss _ _ (find_ticket p.ticket_id s.tickets) miss)
    ]

escalated-left :
    (p q : EscalateTicketParams) (o : Option Ticket)
    → q.from_status ≡ p.from_status
    → ticket_eq p.from_status TicketStatus.needs_owner ≡ false
    → hits (from_guard q) (updated (from_guard p) (escalated_row p) o) ≡ false
unfolding from_guard escalated_row
escalated-left p q none same out = refl
escalated-left p q (some t) same out = rw same (ground (arith, out))

-- Two writers race for one ticket, from the same status outside the owner's queue: whatever their
-- reasons, keys and actors, the second call reports nothing and writes nothing. Where the first found the
-- status, the row then stands in the owner's queue for the first one's reason, with its redraft cycle
-- cleared, and it is due a page exactly where the call was not quiet.
pub escalate_ticket-once :
    (p q : EscalateTicketParams) (s : Tables) (t : Ticket)
    → find_ticket p.ticket_id s.tickets ≡ some t
    → q.ticket_id ≡ p.ticket_id
    → q.from_status ≡ p.from_status
    → ticket_eq p.from_status TicketStatus.needs_owner ≡ false
    → (escalate_ticket q (escalate_ticket p s).1
        ≡ (record { escalated = false; notification_id = none }, (escalate_ticket p s).1))
      × ((ticket_eq t.status p.from_status ≡ false) × ((escalate_ticket p s).1 ≡ s)
          ⊎ ((escalate_ticket p s).0.escalated ≡ true)
            × (find_ticket p.ticket_id (escalate_ticket p s).1.tickets
                ≡ some (record t {
                  status = TicketStatus.needs_owner;
                  needs_owner_reason = some p.reason;
                  escalation_notified_at = if p.quiet then some p.now else none;
                  owner_redraft_feedback = none;
                  redraft_count = 0;
                })))
unfolding from_guard escalated_row
escalate_ticket-once p q s t here same from out =
    let late : hits (from_guard q) (find_ticket q.ticket_id (escalate_ticket p s).1.tickets)
        ≡ false =
      rw (same, escalate_ticket-find p s)
        (escalated-left p q (find_ticket p.ticket_id s.tickets) from out) in
    (
      escalate_ticket_miss q (escalate_ticket p s).1 late,
      elim (Bool-cases (ticket_eq t.status p.from_status)) [
        | inl hit ↦ inr (
          escalate_ticket-escalated p s ∙ rw here hit,
          escalate_ticket-find p s ∙ rw (here, hit) refl,
        )
        | inr miss ↦ inl (miss, ap (λ r. r.1) (escalate_ticket_miss p s (rw here miss)))
      ],
    )
