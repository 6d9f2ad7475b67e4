-- ===== src/Worker/Send/Tests.antt =====
-- Runs of the delivery at fixed inputs.
use ai_email_support_agent.Base.{
  ℕ, ◌≡◌, refl, ◌≤◌, true, false, ◌||◌, none, some, List, [], ◌∷◌, arith, find_row, update_row,
  hits,
}
use ai_email_support_agent.Core.Transitions.{TicketStatus, DraftStatus, OutboundSendStatus}
use ai_email_support_agent.Core.Billing.{Period, is_billing_active, billing_state_of}
use ai_email_support_agent.Db.Tables.{Ticket, find_ticket}
use ai_email_support_agent.Db.Drafts.{Draft, DecisionSource, OutboundSend, SendError}
use ai_email_support_agent.Db.Sends.{World, Message, Direction, send_id}
use ai_email_support_agent.Worker.Send.{
  Settings, AgentStatus, ConnectionStatus, claim_guard, claim_set, claim_send, read_claim,
  category_mode_of, first_kill_lever, read_billing_row, default_row, is_status,
}
use ai_email_support_agent.Worker.Send.Land.{not_sent, released, Landing}
use ai_email_support_agent.Worker.Send.Complete.{CompleteSendInput, ModelSettings, complete_send}
use ai_email_support_agent.Worker.Send.Run.{
  Answers, granted, missed, accepted, Ending, run_send_execute, execute, flip_guard,
  dead_letter_on_throw, run_claimed, landing_of, collapse_on_throw, after_claim, with_agent,
  apply_lever, screen, screened, with_client, with_credential, scan_first, after_miss, unless_stale,
  pre_checks, answer_latest, thread_and_send, unless_aborted, flip_and_send, send_reply,
  finish_delivery,
}
use ai_email_support_agent.Worker.Send.Thread.{
  thread_of, insert_sorted, has_newer_inbound, find_last, in_reply_to_of,
}
use ai_email_support_agent.Worker.Send.Safety.{
  sent_as, run_send_execute-sent_stays, claim_guard-horizon,
}
use ai_email_support_agent.Worker.Send.Metered.{SameBooks, complete_send-twice}
use ai_email_support_agent.Worker.Send.Blind.{run_send_execute-no_blind_reply}
use ai_email_support_agent.Worker.Send.Delivery.{
  Line, idle, scanning, scanned, flying, handed, put, complete_row, walk_back, Step, Steps, claim,
  scan_missed, flip, deliver, complete, release, hold, hold_row, done, more, awaiting, tick, by_run,
  by_owner, AllRelied, release_row,
}
use ai_email_support_agent.Worker.Send.Delivery.Once.{
  delivered_at_most_once, sent_delivered_once, pending_send_parked,
}

abbrev queued_send : OutboundSend
queued_send = record {
  id = 31;
  draft_id = 30;
  ticket_id = 5;
  connection_id = 1;
  status = OutboundSendStatus.queued;
  send_after = 2000;
  agent_id = some 3;
  claimed_at = none;
  claim_expires_at = none;
  claim_token = none;
  provider_draft_id = none;
  provider_message_id = none;
  attempts = 0;
  last_error = none;
  sent_at = none;
}

abbrev claimed_send : OutboundSend
claimed_send = record queued_send {
  status = OutboundSendStatus.claimed;
  claim_expires_at = some 603000;
  claim_token = some 7;
}

abbrev sent_send : OutboundSend
sent_send = record queued_send { status = OutboundSendStatus.sent; provider_message_id = some 77 }

abbrev approved_draft : Draft
approved_draft = record {
  id = 30;
  ticket_id = 5;
  agent_id = some 3;
  agent_run_id = 8;
  version = 1;
  body = [];
  final_body = some [];
  status = DraftStatus.approved;
  category_id = none;
  viewed_at = some 1500;
  decided_at = some 1500;
  decision_source = some DecisionSource.app;
  auto_decided_at = none;
  auto_held_at = none;
  thread_snapshot_at = 1000;
  is_redraft = false;
  expires_at = 5000;
}

abbrev ticket : Ticket
ticket = record {
  id = 5;
  connection_id = 1;
  provider_thread_id = 70;
  agent_id = some 3;
  customer_email = some (99 ∷ []);
  subject = none;
  status = TicketStatus.awaiting_review;
  needs_owner_reason = none;
  spam_flagged = false;
  is_automated = none;
  has_attachments = false;
  inbound_count = 1;
  last_inbound_at = some 1000;
  triage_failure_count = 0;
  last_agent_run_at = some 1200;
  last_agent_prompted_at = none;
  last_agent_finished_at = none;
  agent_failure_count = 0;
  owner_redraft_feedback = none;
  redraft_count = 0;
  escalation_notified_at = none;
  ai_handled_month = none;
  created_at = 900;
}

abbrev asked : Message
asked = record {
  ticket_id = 5;
  connection_id = 1;
  provider_message_id = 50;
  direction = Direction.inbound;
  rfc_message_id = some 500;
  draft_id = none;
  sent_at = some 1000;
}

abbrev world_with : OutboundSend → World
world_with send = record {
  tables = record { tickets = ticket ∷ []; notifications = []; audits = []; next_id = 40 };
  drafts = approved_draft ∷ [];
  sends = send ∷ [];
  messages = asked ∷ [];
  counters = [];
  jobs = [];
  replies = [];
}

abbrev settings : Settings
settings = record {
  platform_state = none;
  workspace = some (record { agent_enabled = true; kill_switch = false });
  agents = λ k. some AgentStatus.active;
  connections = λ k. some ConnectionStatus.connected;
  policies = λ k c. none;
  billing_subscription = none;
}

abbrev models : ModelSettings
models = record { agent_model_config = λ a. none; has_credential = λ k. false }

abbrev month : ℕ → Period
month now = record { start = 0; end = 100000 }

abbrev iso : ℕ → List ℕ
iso now = []

abbrev answers : Answers
answers = record {
  screened_ok = true;
  has_oauth = true;
  credential = granted;
  scan = missed;
  aborted = false;
  flip_at = 3100;
  created_draft = none;
  send_reply = accepted 77;
  read_back = some 501;
  failed_at = 3200;
}

abbrev past_deadline : Answers
past_deadline = record answers { aborted = true }

run_send_execute-sent_stays_example :
    hits (sent_as 77) (
      find_row send_id 31
        (run_send_execute iso models answers month settings true 31 7 3000 0 0
          (world_with sent_send)).1.sends)
    ≡ true
unfolding find_row
run_send_execute-sent_stays_example =
    run_send_execute-sent_stays iso models answers month settings true 31 7 3000 0 0
      (world_with sent_send) 31 77 refl

run_send_execute-no_blind_reply_example :
    (run_send_execute iso models past_deadline month settings true 31 7 3000 0 0
      (world_with queued_send)).1.replies
    ≡ []
run_send_execute-no_blind_reply_example =
    run_send_execute-no_blind_reply iso models past_deadline month settings true 31 7 3000 0 0
      (world_with queued_send) refl

claim_guard-horizon_example : claim_guard 604000 (claim_set 7 3000 queued_send) ≡ true
claim_guard-horizon_example =
    claim_guard-horizon 7 3000 604000 queued_send (omega arith) (omega arith)

abbrev landing : Landing
landing = record {
  send_id = 31;
  draft_id = 30;
  ticket_id = 5;
  connection_id = 1;
  ticket_status = TicketStatus.awaiting_review;
  now = 3000;
  day = 0;
}

abbrev completion : CompleteSendInput
completion = record {
  provider_message_id = 77;
  rfc_message_id = some 501;
  thread_snapshot_at = 1000;
  ai_handled_month = none;
  billing_period_start = 0;
  agent_id = some 3;
  decision_source = some DecisionSource.app;
}

complete_send-twice_example :
    SameBooks
      (complete_send iso models landing completion
        (complete_send iso models landing completion (world_with claimed_send)))
      (complete_send iso models landing completion (world_with claimed_send))
complete_send-twice_example =
    complete_send-twice iso models landing landing completion completion (world_with claimed_send)
      refl

-- One run of one send: claim, scan, flip, delivery, completion.
abbrev ready : Line
ready = record {
  send = queued_send;
  draft = DraftStatus.approved;
  clock = 3000;
  delivered = 0;
  phase = λ k. idle;
}

abbrev after_call : Line
after_call = record {
  send = claim_set 7 3000 queued_send;
  draft = DraftStatus.sending;
  clock = 3000;
  delivered = 1;
  phase =
      put 7 (handed 603000)
        (put 7 (flying 603000) (put 7 (scanned 603000) (put 7 (scanning 603000) (λ k. idle))));
}

abbrev over : Line
over = record after_call {
  send = complete_row 3000 (claim_set 7 3000 queued_send);
  draft = walk_back DraftStatus.sent DraftStatus.sending;
  phase = put 7 idle after_call.phase;
}

flight : Steps ready after_call
unfolding claim_guard claim_set flip_guard awaiting
flight =
    more
      (more (more (more done (by_run (claim 7 refl refl))) (by_run (scan_missed 7 603000 refl)))
        (by_run (flip 7 603000 refl refl refl)))
      (by_run (deliver 7 603000 refl))

flight_relied : AllRelied ready after_call flight
unfolding flight
flight_relied = ((((tt, tt), refl), tt), omega arith)

abbrev landed : Step after_call over
landed = by_run (complete 7 603000 refl)

delivered_at_most_once_example : after_call.delivered ≤ 1
delivered_at_most_once_example =
    delivered_at_most_once ready after_call (λ k. refl) refl refl flight flight_relied

sent_delivered_once_example : over.delivered ≡ 1
unfolding complete_row claim_set
sent_delivered_once_example =
    sent_delivered_once ready over (λ k. refl) refl refl refl (more flight landed)
      (flight_relied, tt) refl

abbrev withdrawn : Line
withdrawn = record ready {
  send = hold_row ready.send.last_error queued_send;
  draft = DraftStatus.pending;
}

abbrev undone : Steps ready withdrawn
undone = more done (by_owner (hold refl refl))

pending_send_parked_example :
    (is_status OutboundSendStatus.queued withdrawn.send
      || is_status OutboundSendStatus.claimed withdrawn.send)
    ≡ false
unfolding hold_row
pending_send_parked_example =
    pending_send_parked ready withdrawn (λ k. refl) refl refl undone (tt, tt) refl

-- A run that outlived its claim releases the send out of the hands of the run that claimed it next, and
-- a third run claims it before the second's call has delivered: two copies.
late_release : (t : Line) × Steps ready t × (t.delivered ≡ 2)
unfolding claim_guard claim_set flip_guard awaiting release_row not_sent released
late_release =
    let first : Steps ready _ = more done (by_run (claim 7 refl refl)) in
    let second : Steps ready _ =
      more
        (more (more (more first (tick 600000)) (by_run (claim 8 refl refl)))
          (by_run (scan_missed 8 1203000 refl)))
        (by_run (flip 8 1203000 refl refl refl)) in
    let late : Steps ready _ =
      more second (by_run (release 7 OutboundSendStatus.queued SendError.failure none refl refl)) in
    let third : Steps ready _ =
      more (more (more late (by_run (claim 9 refl refl))) (by_run (scan_missed 9 1203000 refl)))
        (by_run (flip 9 1203000 refl refl refl)) in
    (_, more (more third (by_run (deliver 8 1203000 refl))) (by_run (deliver 9 1203000 refl)), refl)

-- The first run delivers.
run_delivers :
    (run_send_execute iso models answers month settings true 31 7 3000 0 0
      (world_with queued_send)).0
    ≡ Ending.delivered 77
unfolding run_send_execute execute claim_send claim_guard claim_set read_claim find_row update_row
    find_ticket dead_letter_on_throw run_claimed landing_of collapse_on_throw after_claim with_agent
    apply_lever screen screened with_client with_credential scan_first after_miss unless_stale
    thread_of insert_sorted has_newer_inbound pre_checks find_last answer_latest in_reply_to_of
    thread_and_send unless_aborted flip_and_send send_reply finish_delivery flip_guard
    category_mode_of first_kill_lever is_billing_active billing_state_of read_billing_row
    default_row
run_delivers = refl
