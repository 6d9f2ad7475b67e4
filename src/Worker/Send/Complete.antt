-- ===== src/Worker/Send/Complete.antt =====
-- apps/worker/src/jobs/send-execute.ts, completeSend: the tail that a fresh and a recovered delivery
-- share; with the mode that packages/db/src/model-config.ts resolves for the managed meter.
use ai_email_support_agent.Base.{
  ℕ, Bool, true, false, not, Option, none, some, List, [], ◌∷◌, ◌==◌, ◌&&◌, leb, if◌then◌else◌,
  update_row,
}
use ai_email_support_agent.Core.Transitions.{DraftStatus, sent, claimed, waiting_on_customer}
use ai_email_support_agent.Core.Redraft.{clear_redraft_cycle}
use ai_email_support_agent.Core.Billing.{
  LlmMode, managed, byok, is_managed, handled_period_stamp, handled_period_stamps,
  is_handled_in_period, member,
}
use ai_email_support_agent.Db.Tables.{Text, Ticket, Actor, AuditAction, update_ticket}
use ai_email_support_agent.Db.Metering.{
  Meter, bump_meter, review_sends, auto_sends, ai_handled_conversations, ai_handled_managed,
}
use ai_email_support_agent.Db.Drafts.{DecisionSource, OutboundSend}
use ai_email_support_agent.Db.Sends.{
  World, Message, Direction, Job, send_id, enqueue, update_draft, audit_in,
}
use ai_email_support_agent.Worker.Send.{is_status, is_auto}
use ai_email_support_agent.Worker.Send.Land.{
  Landing, is_sending_status, draft_in, move_draft, handed_back,
}

-- The columns of `agent_model_config` that decide the mode.
pub record ModelConfigRow : Type 0 where
  pub mode : LlmMode
  pub credential_id : Option ℕ

pub record ModelSettings : Type 0 where
  pub agent_model_config : Option ℕ → Option ModelConfigRow
  pub has_credential : ℕ → Bool

abbrev credential_mode : ModelSettings → Option ℕ → LlmMode
credential_mode m none = managed
credential_mode m (some k) = if m.has_credential k then byok else managed

abbrev row_mode : ModelSettings → Option ModelConfigRow → LlmMode
row_mode m none = managed
row_mode m (some row) = if is_managed row.mode then managed else credential_mode m row.credential_id

unfoldable pub resolve_model_mode : ModelSettings → Option ℕ → LlmMode
resolve_model_mode m agent = row_mode m (m.agent_model_config agent)

pub record CompleteSendInput : Type 0 where
  pub provider_message_id : ℕ
  pub rfc_message_id : Option ℕ
  pub thread_snapshot_at : ℕ
  pub ai_handled_month : Option Text
  pub billing_period_start : ℕ
  pub agent_id : Option ℕ
  pub decision_source : Option DecisionSource

abbrev coalesce : Option ℕ → Option ℕ → Option ℕ
coalesce (some a) b = some a
coalesce none b = b

-- `ON CONFLICT (connection_id, provider_message_id) DO UPDATE`: the poll may have the row already.
unfoldable pub upsert_message : Message → List Message → List Message
upsert_message m [] = m ∷ []
upsert_message m (x ∷ xs) =
    let rest = upsert_message m xs in
    if x.connection_id == m.connection_id && x.provider_message_id == m.provider_message_id
    then record x {
      draft_id = m.draft_id;
      rfc_message_id = coalesce x.rfc_message_id m.rfc_message_id;
    }
      ∷ xs
    else x ∷ rest

unfoldable pub sent_message : Landing → CompleteSendInput → Message
sent_message l input = record {
  ticket_id = l.ticket_id;
  connection_id = l.connection_id;
  provider_message_id = input.provider_message_id;
  direction = Direction.outbound;
  rfc_message_id = input.rfc_message_id;
  draft_id = some l.draft_id;
  sent_at = some l.now;
}

-- The completion gate.
unfoldable pub complete_set : Landing → CompleteSendInput → OutboundSend → OutboundSend
complete_set l input s = record s {
  status = sent;
  provider_message_id = some input.provider_message_id;
  sent_at = some l.now;
  last_error = none;
  claim_expires_at = none;
}

abbrev or_epoch : Option ℕ → ℕ
or_epoch none = 0
or_epoch (some t) = t

unfoldable pub park_guard : ℕ → Ticket → Bool
park_guard snapshot t = is_sending_status t && leb (or_epoch t.last_inbound_at) snapshot

unfoldable pub with_cleared_cycle : Ticket → Ticket
with_cleared_cycle t =
    let c = clear_redraft_cycle {F = Text} in
    record t { owner_redraft_feedback = c.owner_redraft_feedback; redraft_count = c.redraft_count }

unfoldable pub parked : Ticket → Ticket
parked t = with_cleared_cycle (record t { status = waiting_on_customer })

unfoldable pub handed_back_sent : Ticket → Ticket
handed_back_sent t = with_cleared_cycle (handed_back t)

-- The ticket is parked on the customer, or handed back where the watermark moved.
unfoldable pub settle_ticket : Landing → ℕ → World → Bool × World
settle_ticket l snapshot w =
    let (ts, flipped) = update_ticket l.ticket_id (park_guard snapshot) parked w.tables.tickets in
    let (ts', hand_back) =
      update_ticket l.ticket_id is_sending_status handed_back_sent w.tables.tickets in
    if flipped
    then (false, record w { tables = record w.tables { tickets = ts } })
    else (hand_back, record w { tables = record w.tables { tickets = ts' } })

abbrev bump : ℕ → Meter → World → World
bump day meter w = record w { counters = bump_meter day meter 1 w.counters }

unfoldable pub decision_meter : Option DecisionSource → Meter
decision_meter source = if is_auto source then auto_sends else review_sends

-- `to_iso_string` is `Date.prototype.toISOString`.
module _ (to_iso_string : ℕ → List ℕ) (models : ModelSettings) where
  abbrev pub not_stamped : ℕ → Option Text → Bool
  not_stamped period_start none = true
  not_stamped period_start (some stored) =
      not (member (handled_period_stamps to_iso_string period_start) stored)

  unfoldable pub stamp_guard : ℕ → Ticket → Bool
  stamp_guard period_start t = not_stamped period_start t.ai_handled_month

  unfoldable pub stamp_set : ℕ → Ticket → Ticket
  stamp_set period_start t = record t {
    ai_handled_month = some (handled_period_stamp to_iso_string period_start);
  }

  -- The conversation's meters: at most once for a ticket and a billing period.
  unfoldable pub meter_conversation : Landing → CompleteSendInput → World → World
  meter_conversation l input w =
      let (ts, stamped) =
        update_ticket l.ticket_id (stamp_guard input.billing_period_start)
          (stamp_set input.billing_period_start) w.tables.tickets in
      let w₁ =
        bump l.day ai_handled_conversations
          (record w { tables = record w.tables { tickets = ts } }) in
      if is_handled_in_period to_iso_string input.ai_handled_month input.billing_period_start
      then w
      else if not stamped
      then w
      else if is_managed (resolve_model_mode models input.agent_id)
      then bump l.day ai_handled_managed w₁
      else w₁

  unfoldable pub meter_send : Landing → CompleteSendInput → World → World
  meter_send l input w =
      audit_in Actor.send_execute AuditAction.send_sent l.send_id
        (meter_conversation l input (bump l.day (decision_meter input.decision_source) w))

  -- `approved → sending → sent`
  unfoldable pub send_draft : ℕ → World → World
  send_draft k w =
      update_draft k (draft_in DraftStatus.sending) (move_draft DraftStatus.sent)
        (update_draft k (draft_in DraftStatus.approved) (move_draft DraftStatus.sending) w)

  -- The writes up to the gate's verdict; `true` where this call completed the send.
  unfoldable pub completion_writes : Landing → CompleteSendInput → World → Bool × Bool × World
  completion_writes l input w =
      let (sends, completed) =
        update_row send_id l.send_id (is_status claimed) (complete_set l input) w.sends in
      let (hand_back, w') = settle_ticket l input.thread_snapshot_at (
        send_draft l.draft_id (record w {
          messages = upsert_message (sent_message l input) w.messages;
          sends = sends;
        })) in
      (completed, hand_back, w')

  abbrev pub hand_back_job : Landing → Bool → World → World
  hand_back_job l hand_back w = if hand_back then enqueue (Job.ticket_draft l.ticket_id) w else w

  -- The two hooks after the commit swallow their errors; `on_sent` is `memory.capture`'s job.
  unfoldable pub complete_send : Landing → CompleteSendInput → World → World
  complete_send l input w =
      let (completed, hand_back, w') = completion_writes l input w in
      if completed
      then enqueue (Job.memory_capture l.draft_id)
          (hand_back_job l hand_back (meter_send l input w'))
      else w'
