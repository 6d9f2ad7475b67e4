-- ===== src/Db/Tables.antt =====
-- packages/db/src/schema: the columns of one workspace's rows that the modelled code reads or writes.
-- A uuid is a number, compared only for equality; a timestamp is its epoch milliseconds; a text is the
-- list of its UTF-16 code units. Row-level security makes every statement one workspace's, so `org_id`
-- has no column here. `UPDATE … WHERE id = … AND …` reaches the one row of a primary key.
pub mod Rows
use ai_email_support_agent.Base.{
  ℕ, Bool, true, false, Option, none, some, List, [], ◌∷◌, ◌++◌, ◌==◌, ◌&&◌, ◌||◌, if◌then◌else◌,
}
use ai_email_support_agent.Core.Transitions.{TicketStatus, AgentRunStatus}

abbrev pub Text : Type 0
Text = List ℕ

-- packages/contracts/src/triage.ts: NEEDS_OWNER_REASONS
pub data NeedsOwnerReason : Type 0 where
  tripwire triage_flags sentiment_angry triage_failed triage_cap agent_escalated agent_failed :
      NeedsOwnerReason
  agent_run_cap guardrail_failed redraft_limit_reached redraft_unfulfilled owner_handling :
      NeedsOwnerReason
  orphaned draft_expired send_failed category_off no_agent provider_unavailable trial_budget :
      NeedsOwnerReason

pub record Ticket : Type 0 where
  pub id : ℕ
  pub connection_id : ℕ
  pub provider_thread_id : ℕ
  pub agent_id : Option ℕ
  pub customer_email : Option Text
  pub subject : Option Text
  pub status : TicketStatus
  pub needs_owner_reason : Option NeedsOwnerReason
  pub spam_flagged : Bool
  pub is_automated : Option Bool
  pub has_attachments : Bool
  pub inbound_count : ℕ
  pub last_inbound_at : Option ℕ
  pub triage_failure_count : ℕ
  pub last_agent_run_at : Option ℕ
  pub last_agent_prompted_at : Option ℕ
  pub last_agent_finished_at : Option ℕ
  pub agent_failure_count : ℕ
  pub owner_redraft_feedback : Option Text
  pub redraft_count : ℕ
  pub escalation_notified_at : Option ℕ
  pub ai_handled_month : Option Text
  pub created_at : ℕ

-- The templates of `notifications.dedupe_key`; a day is its number.
pub data DedupeKey : Type 0 where
  escalation : ℕ → ℕ → DedupeKey
  provider_unavailable : ℕ → ℕ → DedupeKey
  draft_review : ℕ → DedupeKey
  auto_send : ℕ → DedupeKey
  send_held : ℕ → ℕ → DedupeKey
  send_failed : ℕ → ℕ → DedupeKey
  send_stale : ℕ → DedupeKey
  reauth : ℕ → ℕ → DedupeKey
  redraft_limit : ℕ → ℕ → DedupeKey

abbrev pub key_eq : DedupeKey → DedupeKey → Bool
key_eq (escalation a b) (escalation c d) = a == c && b == d
key_eq (provider_unavailable a b) (provider_unavailable c d) = a == c && b == d
key_eq (draft_review a) (draft_review b) = a == b
key_eq (auto_send a) (auto_send b) = a == b
key_eq (send_held a b) (send_held c d) = a == c && b == d
key_eq (send_failed a b) (send_failed c d) = a == c && b == d
key_eq (send_stale a) (send_stale b) = a == b
key_eq (reauth a b) (reauth c d) = a == c && b == d
key_eq (redraft_limit a b) (redraft_limit c d) = a == c && b == d
key_eq _ _ = false

pub record Notification : Type 0 where
  pub id : ℕ
  pub reason : Option NeedsOwnerReason
  pub ticket_id : Option ℕ
  pub draft_id : Option ℕ
  pub dedupe_key : DedupeKey

pub data Actor : Type 0 where
  ticket_draft mailbox_sync send_execute owner : Actor
  agent_run : ℕ → Actor

pub data AuditAction : Type 0 where
  ticket_escalated ticket_tripwire draft_run_failed draft_escalate_lost_race
        draft_propose_lost_race :
      AuditAction
  draft_no_reply draft_created draft_superseded draft_expired agent_address_verified : AuditAction
  send_held send_failed send_stale send_dead_letter send_sent : AuditAction
  draft_approved draft_held draft_resumed draft_rejected ticket_resolved : AuditAction
  draft_rejected_for_redraft draft_viewed : AuditAction

-- An audit row without its free-form `detail`.
pub record Audit : Type 0 where
  pub actor : Actor
  pub action : AuditAction
  pub entity_id : ℕ

pub data RunKind : Type 0 where
  triage draft sandbox : RunKind

pub record AgentRun : Type 0 where
  pub id : ℕ
  pub kind : RunKind
  pub ticket_id : Option ℕ
  pub agent_id : Option ℕ
  pub status : AgentRunStatus
  pub started_at : ℕ

-- `next_id` stands for the database's generator of fresh uuids.
pub record Tables : Type 0 where
  pub tickets : List Ticket
  pub notifications : List Notification
  pub audits : List Audit
  pub next_id : ℕ

-- `SELECT … WHERE id = …`
unfoldable pub find_ticket : ℕ → List Ticket → Option Ticket
find_ticket k [] = none
find_ticket k (t ∷ ts) = if t.id == k then some t else find_ticket k ts

-- `UPDATE … SET … WHERE id = … AND guard RETURNING id`: the rows, and whether one came back.
unfoldable pub update_ticket :
    ℕ → (Ticket → Bool) → (Ticket → Ticket) → List Ticket → List Ticket × Bool
update_ticket k guard set [] = ([], false)
update_ticket k guard set (t ∷ ts) =
    let (ts', hit) = update_ticket k guard set ts in
    if t.id == k then (if guard t then (set t ∷ ts, true) else (t ∷ ts, false)) else (t ∷ ts', hit)

abbrev pub always : Ticket → Bool
always t = true

-- `audit(tx, …)`
unfoldable pub audit : Actor → AuditAction → ℕ → Tables → Tables
audit actor action entity s = record s {
  audits = s.audits ++ record { actor = actor; action = action; entity_id = entity } ∷ [];
}

-- Whether a notification with this key is there already.
unfoldable pub has_key : DedupeKey → List Notification → Bool
has_key k [] = false
has_key k (n ∷ ns) = key_eq n.dedupe_key k || has_key k ns
