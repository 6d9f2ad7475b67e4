-- ===== src/Worker/Outcomes/Tests.antt =====
-- apps/worker/src/drafting/outcomes.ts: the landings on a concrete store.
use ai_email_support_agent.Base.{true, false, none, some, [], ◌∷◌, ◌++◌, ◌≡◌, refl, inr}
use ai_email_support_agent.Core.Transitions.{TicketStatus, DraftStatus, OutboundSendStatus}
use ai_email_support_agent.Db.Tables.{Ticket, find_ticket, update_ticket, audit, draft_review}
use ai_email_support_agent.Db.Drafts.{Draft, count_live, live_on, flag_answers}
use ai_email_support_agent.Worker.Outcomes.{
  Store, OutcomeContext, DraftLanding, DraftRowInput, LandingError, apply_escalate_outcome,
  apply_no_reply_outcome, retire_all, retire_one, retire_to, new_draft,
}
use ai_email_support_agent.Worker.Outcomes.Landing.{
  apply_draft_outcome, is_triaged, Landed, record_lost_race, take_ticket, flipped, insert_draft,
  announce, close, retire_live, and_then, push_draft, set_status,
}
use ai_email_support_agent.Worker.Outcomes.Slot.{
  count_in_flight, in_flight, apply_draft_outcome_lands,
}
use ai_email_support_agent.Worker.Outcomes.Finish.{
  Claimed, Settled, no_draft-Settled, apply_draft_outcome-Settled,
}

abbrev row_in : TicketStatus → Ticket
row_in status = record {
  id = 5;
  connection_id = 1;
  provider_thread_id = 70;
  agent_id = some 3;
  customer_email = none;
  subject = none;
  status = status;
  needs_owner_reason = none;
  spam_flagged = false;
  is_automated = none;
  has_attachments = false;
  inbound_count = 1;
  last_inbound_at = some 1000;
  triage_failure_count = 0;
  last_agent_run_at = some 2000;
  last_agent_prompted_at = none;
  last_agent_finished_at = none;
  agent_failure_count = 0;
  owner_redraft_feedback = none;
  redraft_count = 0;
  escalation_notified_at = none;
  ai_handled_month = none;
  created_at = 900;
}

-- A draft that was approved again, with its send queued, beside a ticket that is `triaged` again.
abbrev approved_draft : Draft
approved_draft = record {
  id = 30;
  ticket_id = 5;
  agent_id = some 3;
  agent_run_id = 8;
  version = 1;
  body = [];
  final_body = none;
  status = DraftStatus.approved;
  category_id = none;
  viewed_at = none;
  decided_at = none;
  decision_source = none;
  auto_decided_at = none;
  auto_held_at = none;
  thread_snapshot_at = 900;
  is_redraft = false;
  expires_at = 5000;
}

abbrev store_in : TicketStatus → Store
store_in status = record {
  tables = record { tickets = row_in status ∷ []; notifications = []; audits = []; next_id = 40 };
  ledger = record { runs = []; counters = []; next_run = 10 };
  drafts = approved_draft ∷ [];
  sends =
      record {
        id = 31;
        draft_id = 30;
        ticket_id = 5;
        connection_id = 1;
        status = OutboundSendStatus.queued;
        send_after = 2500;
        agent_id = some 3;
        claimed_at = none;
        claim_expires_at = none;
        claim_token = none;
        provider_draft_id = none;
        provider_message_id = none;
        attempts = 0;
        last_error = none;
        sent_at = none;
      }
      ∷ [];
  answers = [];
}

abbrev ctx : OutcomeContext
ctx = record {
  ticket_id = 5;
  run_id = 9;
  agent_id = 3;
  now = 2000;
  finished_at = 3000;
  day = 0;
  thread_snapshot_at = some 1000;
}

abbrev written : DraftRowInput
written = record {
  body = 72 ∷ 105 ∷ [];
  category_id = none;
  memory_conflict_ids = [];
  is_redraft = false;
}

apply_draft_outcome_lands_example :
    (l : Landed) × (s' : Store) × (apply_draft_outcome ctx
        (DraftLanding.auto 9000 true)
        written
        (store_in TicketStatus.triaged)
      ≡ inr (l, s'))
    × (count_live 5 s'.drafts ≡ 1)
unfolding find_ticket is_triaged count_in_flight in_flight
apply_draft_outcome_lands_example =
    apply_draft_outcome_lands ctx (DraftLanding.auto 9000 true) written
      (store_in TicketStatus.triaged) refl refl

claim_before_finish : Claimed ctx (store_in TicketStatus.triaged).tables.tickets
unfolding Claimed find_ticket
claim_before_finish = refl

no_draft-Settled_example :
    Settled ctx (apply_escalate_outcome ctx (store_in TicketStatus.triaged)).1
    × Settled ctx (apply_no_reply_outcome ctx false (store_in TicketStatus.triaged)).1
    × Settled ctx
        (record_lost_race ctx LandingError.escalate_lost_race (store_in TicketStatus.triaged))
no_draft-Settled_example =
    no_draft-Settled ctx false LandingError.escalate_lost_race (store_in TicketStatus.triaged)
      claim_before_finish

-- What a landing for review leaves.
abbrev reviewed : Landed × Store
reviewed =
    let s = store_in TicketStatus.triaged in
    let t = record s.tables {
      tickets =
          (update_ticket 5 is_triaged (set_status TicketStatus.awaiting_review) s.tables.tickets).0;
    } in
    let s₁ = retire_live ctx (record s { tables = t }) in
    let s₂ = record s₁ {
      drafts = s₁.drafts ++ new_draft ctx DraftLanding.review written 40 s₁.drafts ∷ [];
      tables = record s₁.tables { next_id = 41 };
      answers = flag_answers [] s₁.answers;
    } in
    let (n, t₂) = push_draft (draft_review 40) 5 40 s₂.tables in
    close ctx
      (record { draft_id = 40; notification_id = n; send_id = none }, record s₂ { tables = t₂ })

reviewed_lands :
    apply_draft_outcome ctx DraftLanding.review written (store_in TicketStatus.triaged)
    ≡ inr reviewed
unfolding apply_draft_outcome and_then take_ticket flipped retire_live retire_all retire_one
    retire_to insert_draft announce find_ticket update_ticket is_triaged set_status count_live
    live_on audit
reviewed_lands = refl

apply_draft_outcome-Settled_example : Settled ctx reviewed.1
apply_draft_outcome-Settled_example =
    apply_draft_outcome-Settled ctx DraftLanding.review written (store_in TicketStatus.triaged)
      reviewed.1 reviewed.0 claim_before_finish reviewed_lands
