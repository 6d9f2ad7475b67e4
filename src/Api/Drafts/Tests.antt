-- ===== src/Api/Drafts/Tests.antt =====
-- The owner's actions at fixed inputs.
use ai_email_support_agent.Base.{
  ℕ, ◌≡◌, refl, ◌≤◌, ◌+◌, true, false, Option, none, some, [], ◌∷◌, arith, All, hits, leb, find_row,
}
use ai_email_support_agent.Core.Transitions.{
  TicketStatus, DraftStatus, OutboundSendStatus, outbound_can,
}
use ai_email_support_agent.Core.Redraft.{RejectAction}
use ai_email_support_agent.Db.Tables.{Text, Ticket, find_ticket, update_ticket}
use ai_email_support_agent.Db.Drafts.{Draft, DecisionSource, OutboundSend, count_live, live_on}
use ai_email_support_agent.Db.Sends.{World, update_draft}
use ai_email_support_agent.Worker.Send.{claim_guard, Settings, AgentStatus, ConnectionStatus}
use ai_email_support_agent.Api.Drafts.{
  Desk, Answer, answered, AnswerHolds, upsert_send, send_of, is_requeueable, DraftActor,
  ApproveInput, Approved, approve_draft, approve_found, approve_viewed, approve_workspace,
  approve_ready, approve_screened, approve_send, viewed_at_of, consume_action_token,
}
use ai_email_support_agent.Api.Drafts.Decide.{resume_draft}
use ai_email_support_agent.Api.Drafts.Resolve.{resolve_ticket, find_retirable}
use ai_email_support_agent.Api.Drafts.Refuse.{RejectInput, reject_draft}
use ai_email_support_agent.Api.Drafts.Reject.{in_review, reject_draft-never_dangling}
use ai_email_support_agent.Api.Drafts.Live.{
  on_its_way, resume_draft-one_live, resolve_ticket-nothing_out,
}
use ai_email_support_agent.Api.Drafts.Undo.{approve_draft-undo_window}

abbrev queued_send : OutboundSend
queued_send = record {
  id = 31;
  draft_id = 30;
  ticket_id = 5;
  connection_id = 1;
  status = OutboundSendStatus.queued;
  send_after = 2000;
  agent_id = some 3;
  claimed_at = none;
  claim_expires_at = none;
  claim_token = none;
  provider_draft_id = none;
  provider_message_id = none;
  attempts = 0;
  last_error = none;
  sent_at = none;
}

abbrev approved_draft : Draft
approved_draft = record {
  id = 30;
  ticket_id = 5;
  agent_id = some 3;
  agent_run_id = 8;
  version = 1;
  body = [];
  final_body = some [];
  status = DraftStatus.approved;
  category_id = none;
  viewed_at = some 1500;
  decided_at = some 1500;
  decision_source = some DecisionSource.app;
  auto_decided_at = none;
  auto_held_at = none;
  thread_snapshot_at = 1000;
  is_redraft = false;
  expires_at = 5000;
}

abbrev ticket : Ticket
ticket = record {
  id = 5;
  connection_id = 1;
  provider_thread_id = 70;
  agent_id = some 3;
  customer_email = some (99 ∷ []);
  subject = none;
  status = TicketStatus.awaiting_review;
  needs_owner_reason = none;
  spam_flagged = false;
  is_automated = none;
  has_attachments = false;
  inbound_count = 1;
  last_inbound_at = some 1000;
  triage_failure_count = 0;
  last_agent_run_at = some 1200;
  last_agent_prompted_at = none;
  last_agent_finished_at = none;
  agent_failure_count = 0;
  owner_redraft_feedback = none;
  redraft_count = 0;
  escalation_notified_at = none;
  ai_handled_month = none;
  created_at = 900;
}

abbrev desk_with : DraftStatus → OutboundSendStatus → Desk
desk_with draft send = record {
  world = record {
    tables = record { tickets = ticket ∷ []; notifications = []; audits = []; next_id = 40 };
    drafts = record approved_draft { status = draft } ∷ [];
    sends = record queued_send { status = send } ∷ [];
    messages = [];
    counters = [];
    jobs = [];
    replies = [];
  };
  tokens = [];
}

abbrev no_lesson : Draft → World → Option ℕ × World
no_lesson d w = (none, w)

abbrev same_text : Text → Text
same_text t = t

abbrev pending_desk : Desk
pending_desk = desk_with DraftStatus.pending OutboundSendStatus.held

abbrev rejection : RejectInput
rejection = record { draft_id = 30; reason = 110 ∷ []; action = RejectAction.redraft }

reject_draft-never_dangling_example :
    AnswerHolds
      (λ resolution d'. in_review 5 d'.world ≡ false)
      (reject_draft same_text no_lesson rejection
        (record { source = DecisionSource.app })
        0
        3000
        pending_desk)
unfolding find_row
reject_draft-never_dangling_example =
    reject_draft-never_dangling same_text no_lesson (λ d w. refl) rejection
      (record { source = DecisionSource.app }) 0 3000 pending_desk
      (record approved_draft { status = DraftStatus.pending }) refl

abbrev held_desk : Desk
held_desk = desk_with DraftStatus.held OutboundSendStatus.held

resume_draft-one_live_example :
    AnswerHolds (λ _ d'. count_live 5 d'.world.drafts ≤ 1) (resume_draft 30 held_desk)
unfolding count_live live_on
resume_draft-one_live_example = resume_draft-one_live 5 30 held_desk (omega arith) (omega arith)

abbrev live_desk : Desk
live_desk = desk_with DraftStatus.approved OutboundSendStatus.claimed

resolve_ticket-nothing_out_example :
    All (λ s. on_its_way 30 s ≡ false) (resolve_ticket 5 live_desk.world).1.sends
unfolding find_row find_retirable resolve_ticket update_ticket
resolve_ticket-nothing_out_example =
    resolve_ticket-nothing_out 5 approved_draft live_desk.world refl refl refl

abbrev settings : Settings
settings = record {
  platform_state = none;
  workspace = some (record { agent_enabled = true; kill_switch = false });
  agents = λ k. some AgentStatus.active;
  connections = λ k. some ConnectionStatus.connected;
  policies = λ k c. none;
  billing_subscription = none;
}

abbrev passes : Draft → Text → Option Text
passes d body = some body

abbrev approval : ApproveInput
approval = record { draft_id = 30; body = none; consume_token_id = none }

abbrev by_app : DraftActor
by_app = record { source = DecisionSource.app }

abbrev failed_desk : Desk
failed_desk = desk_with DraftStatus.pending OutboundSendStatus.failed

approve_draft-undo_window_example :
    AnswerHolds
      (λ a d'.
        (a.send_after ≡ 3000 + 15000)
        × (hits (claim_guard 17999) (send_of 30 d'.world.sends) ≡ leb (3000 + 15000) 17999))
      (approve_draft passes no_lesson approval by_app 3000 settings failed_desk)
approve_draft-undo_window_example =
    approve_draft-undo_window passes no_lesson (λ d w. refl) 17999 3000 approval by_app settings
      failed_desk

abbrev send_id_of : Answer Approved → Option ℕ
send_id_of (answered a d) = some a.send_id
send_id_of _ = none

-- The failed send is revived.
approval_revives :
    send_id_of (approve_draft passes no_lesson approval by_app 3000 settings failed_desk) ≡ some 31
unfolding approve_draft approve_found approve_viewed approve_workspace approve_ready
    approve_screened approve_send find_row viewed_at_of find_ticket upsert_send update_draft
    is_requeueable outbound_can consume_action_token
approval_revives = refl
