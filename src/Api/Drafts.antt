-- ===== src/Api/Drafts.antt =====
-- apps/api/src/drafts/service.ts: what the owner does to a draft. Every function is one transaction, and
-- one that throws leaves the rows as they were; `withDeadlockRetry` runs it again on fresh reads.
pub mod Decide
pub mod Resolve
pub mod Refuse
pub mod Reject
pub mod Live
pub mod Undo
mod Tests
use ai_email_support_agent.Base.{
  ℕ, suc, ◌+◌, ◌*◌, Bool, true, false, not, Option, none, some, List, [], ◌∷◌, ◌++◌, ◌⊎◌, inl, inr,
  ◌==◌, ◌&&◌, ◌||◌, leb, ltb, if◌then◌else◌, find_row, update_row,
}
use ai_email_support_agent.Core.Transitions.{
  TicketStatus, ticket_eq, DraftStatus, draft_eq, OutboundSendStatus, outbound_can, queued, claimed,
}
use ai_email_support_agent.Core.Billing.{text_eq}
use ai_email_support_agent.Db.Tables.{
  Text, Ticket, Actor, AuditAction, NeedsOwnerReason, find_ticket, update_ticket,
}
use ai_email_support_agent.Db.Drafts.{
  Draft, DecisionSource, OutboundSend, SendError, live_on, count_live, is_live_status, hold_sends,
}
use ai_email_support_agent.Db.Sends.{
  World, Job, draft_id, enqueue, enqueue_page, update_draft, audit_in,
}
use ai_email_support_agent.Worker.Send.{Settings, Workspace, AgentStatus, is_auto, is_status}
use ai_email_support_agent.Worker.Send.Thread.{or_else}
use ai_email_support_agent.Worker.Send.Land.{draft_in, move_draft, update_ticket_in}

-- packages/contracts/src/drafts.ts
abbrev pub approve_undo_seconds : ℕ
approve_undo_seconds = 15

-- A row of `draft_action_tokens`.
pub record ActionToken : Type 0 where
  pub id : ℕ
  pub consumed_at : Option ℕ

pub record Desk : Type 0 where
  pub world : World
  pub tokens : List ActionToken

pub data Refusal : Type 0 where
  not_found not_pending not_viewed kill_switch agent_disabled guardrail : Refusal
  not_holdable too_late not_resumable : Refusal

-- What a service throws; the transaction is rolled back.
pub data Thrown : Type 0 where
  missing_workspace live_send_exists token_consumed : Thrown

-- A soft outcome commits the rows that it carries.
pub data Answer (A : Type 0) : Type 0 where
  threw : Thrown → Answer A
  refused : Refusal → Answer A
  answered : A → Desk → Answer A

-- What holds of the rows that an answer commits.
abbrev pub AnswerHolds : {A : Type 0} → (A → Desk → Type 0) → Answer A → Type 0
AnswerHolds P (threw e) = Unit {0}
AnswerHolds P (refused r) = Unit {0}
AnswerHolds P (answered a d) = P a d

abbrev pub token_id : ActionToken → ℕ
token_id t = t.id

abbrev pub is_unconsumed : ActionToken → Bool
is_unconsumed t = elim t.consumed_at [ none ↦ true | some _ ↦ false ]

abbrev pub consumed : ℕ → ActionToken → ActionToken
consumed now t = record t { consumed_at = some now }

-- consumeActionToken, before what follows it in the transaction.
unfoldable pub consume_action_token :
    {A : Type 0} → Option ℕ → ℕ → Desk → (Desk → Answer A) → Answer A
consume_action_token none now d k = k d
consume_action_token (some token) now d k =
    let (tokens, hit) = update_row token_id token is_unconsumed (consumed now) d.tokens in
    if hit then k (record d { tokens = tokens }) else threw token_consumed

-- The one ledger row of a draft.
unfoldable pub send_of : ℕ → List OutboundSend → Option OutboundSend
send_of draft [] = none
send_of draft (s ∷ ss) = if s.draft_id == draft then some s else send_of draft ss

unfoldable pub is_requeueable : OutboundSendStatus → Bool
is_requeueable status = outbound_can status queued

unfoldable pub revived : ℕ → OutboundSend → OutboundSend
revived send_after s = record s {
  status = queued;
  send_after = send_after;
  attempts = 0;
  claimed_at = none;
  claim_expires_at = none;
  claim_token = none;
  last_error = none;
}

-- `ON CONFLICT (draft_id) DO UPDATE … WHERE status IN REQUEUEABLE_SEND_STATUSES RETURNING id`
unfoldable pub upsert_send : OutboundSend → List OutboundSend → List OutboundSend × Option ℕ
upsert_send new [] = (new ∷ [], some new.id)
upsert_send new (s ∷ ss) =
    let (ss', id) = upsert_send new ss in
    if s.draft_id == new.draft_id
    then (if is_requeueable s.status
        then (revived new.send_after s ∷ ss, some s.id)
        else (s ∷ ss, none))
    else (s ∷ ss', id)

pub record DraftActor : Type 0 where
  pub source : DecisionSource

pub record ApproveInput : Type 0 where
  pub draft_id : ℕ
  pub body : Option Text
  pub consume_token_id : Option ℕ

pub record Approved : Type 0 where
  pub send_id : ℕ
  pub send_after : ℕ
  pub edited : Bool

abbrev is_email : DecisionSource → Bool
is_email DecisionSource.email = true
is_email _ = false

-- `draft.viewedAt ?? (actor.source === 'email' ? now : null)`
unfoldable pub viewed_at_of : Option ℕ → DecisionSource → ℕ → Option ℕ
viewed_at_of (some at) source now = some at
viewed_at_of none source now = if is_email source then some now else none

abbrev body_or : Option Text → Text → Text
body_or (some b) d = b
body_or none d = d

abbrev was_edited : Option Text → Text → Text → Bool
was_edited none final model = false
was_edited (some _) final model = not (text_eq final model)

unfoldable pub approve_set : DraftActor → Text → ℕ → ℕ → Draft → Draft
approve_set actor final_body viewed_at now d = record d {
  status = DraftStatus.approved;
  final_body = some final_body;
  decided_at = some now;
  decision_source = some actor.source;
  viewed_at = some viewed_at;
}

-- The id of the agent, when its row is there.
abbrev known_agent : Settings → Option ℕ → Option ℕ
known_agent settings none = none
known_agent settings (some agent) = elim (settings.agents agent) [
  | none ↦ none
  | some _ ↦ some agent
]

-- `screen` is the reply policy with the body's guardrails, the normalized body where they pass;
-- `maybe_demote` is packages/db's check of the category's demotion, on rows that are not modelled here.
module _ (screen : Draft → Text → Option Text)
    (maybe_demote : Draft → World → Option ℕ × World) where
  abbrev pub demote_if : Bool → Draft → World → Option ℕ × World
  demote_if true d w = maybe_demote d w
  demote_if false d w = (none, w)

  abbrev pub suggest_if : Bool → ℕ → World → World
  suggest_if true draft w = enqueue (Job.guidance_suggest draft) w
  suggest_if false draft w = w

  abbrev pub held_before : Draft → Bool
  held_before d = elim d.auto_held_at [ none ↦ false | some _ ↦ true ]

  abbrev pub new_send : Draft → Ticket → ℕ → ℕ → ℕ → OutboundSend
  new_send draft ticket agent id send_after = record {
    id = id;
    draft_id = draft.id;
    ticket_id = ticket.id;
    connection_id = ticket.connection_id;
    status = queued;
    send_after = send_after;
    agent_id = some agent;
    claimed_at = none;
    claim_expires_at = none;
    claim_token = none;
    provider_draft_id = none;
    provider_message_id = none;
    attempts = 0;
    last_error = none;
    sent_at = none;
  }

  -- The end of the transaction, then the jobs: the send's, the page's and the suggestion's.
  unfoldable pub approve_tail : Draft → Bool → ℕ → World → World
  approve_tail draft edited send w =
      let (n, w') = demote_if (edited && held_before draft) draft w in
      suggest_if edited draft.id (
        enqueue_page n (
          enqueue (Job.send_execute send)
            (audit_in Actor.owner AuditAction.draft_approved draft.id w')))

  -- The ledger row, or the throw that rolls the approval back.
  unfoldable pub approve_send :
      Draft → Bool → Option ℕ → ℕ → ℕ → Desk → List OutboundSend × Option ℕ → Answer Approved
  approve_send draft edited token now send_after d (sends, none) = threw live_send_exists
  approve_send draft edited token now send_after d (sends, some id) =
      consume_action_token token now
        (record d {
          world = record d.world {
            sends = sends;
            tables = record d.world.tables { next_id = suc d.world.tables.next_id };
          };
        })
        λ d'.
          answered (record { send_id = id; send_after = send_after; edited = edited })
            (record d' { world = approve_tail draft edited id d'.world })

  unfoldable pub approve_screened :
      ApproveInput → DraftActor → ℕ → Draft → Ticket → ℕ → ℕ → Option Text → Desk → Answer Approved
  approve_screened input actor now draft ticket agent viewed_at none d = refused guardrail
  approve_screened input actor now draft ticket agent viewed_at (some final) d =
      let w =
        update_draft draft.id (draft_in DraftStatus.pending) (approve_set actor final viewed_at now)
          d.world in
      let send_after = now + approve_undo_seconds * 1000 in
      approve_send draft (was_edited input.body final draft.body) input.consume_token_id now
        send_after (record d { world = w })
        (upsert_send (new_send draft ticket agent w.tables.next_id send_after) w.sends)

  unfoldable pub approve_ready :
      ApproveInput
      → DraftActor
      → ℕ
      → Draft
      → Ticket
      → ℕ
      → Workspace
      → Option ℕ
      → Desk
      → Answer Approved
  approve_ready input actor now draft ticket viewed_at ws none d =
      if ws.kill_switch then refused kill_switch else refused agent_disabled
  approve_ready input actor now draft ticket viewed_at ws (some agent) d =
      if ws.kill_switch
      then refused kill_switch
      else if not ws.agent_enabled
      then refused agent_disabled
      else approve_screened input actor now draft ticket agent viewed_at
          (screen draft (body_or input.body draft.body)) d

  unfoldable pub approve_workspace :
      ApproveInput
      → DraftActor
      → ℕ
      → Draft
      → Ticket
      → ℕ
      → Settings
      → Option Workspace
      → Desk
      → Answer Approved
  approve_workspace input actor now draft ticket viewed_at settings none d = threw missing_workspace
  approve_workspace input actor now draft ticket viewed_at settings (some ws) d =
      approve_ready input actor now draft ticket viewed_at ws
        (known_agent settings (or_else draft.agent_id ticket.agent_id)) d

  unfoldable pub approve_viewed :
      ApproveInput
      → DraftActor
      → ℕ
      → Draft
      → Settings
      → Option ℕ
      → Option Ticket
      → Desk
      → Answer Approved
  approve_viewed input actor now draft settings none ticket d = refused not_viewed
  approve_viewed input actor now draft settings (some at) none d = refused not_found
  approve_viewed input actor now draft settings (some at) (some ticket) d =
      approve_workspace input actor now draft ticket at settings settings.workspace d

  unfoldable pub approve_found :
      ApproveInput → DraftActor → ℕ → Settings → Option Draft → Desk → Answer Approved
  approve_found input actor now settings none d = refused not_found
  approve_found input actor now settings (some draft) d =
      if not (draft_in DraftStatus.pending draft)
      then refused not_pending
      else approve_viewed input actor now draft settings
          (viewed_at_of draft.viewed_at actor.source now)
          (find_ticket draft.ticket_id d.world.tables.tickets) d

  unfoldable pub approve_draft : ApproveInput → DraftActor → ℕ → Settings → Desk → Answer Approved
  approve_draft input actor now settings d =
      approve_found input actor now settings (find_row draft_id input.draft_id d.world.drafts) d
