-- ===== src/Mail/Store.antt =====
-- packages/mail/src/store.ts: the statements of the mailbox sync on tickets and messages.
pub mod Order
use ai_email_support_agent.Base.{
  ℕ, suc, ◌+◌, Bool, true, false, not, Option, none, some, List, [], ◌∷◌, ◌++◌, ◌==◌, ◌&&◌, ◌||◌,
  leb, ltb, if◌then◌else◌,
}
use ai_email_support_agent.Core.Transitions.{
  TicketStatus, ticket_eq, resolved, waiting_on_customer, needs_owner,
}
use ai_email_support_agent.Core.Billing.{text_eq}
use ai_email_support_agent.Db.Tables.{
  Text, Ticket, NeedsOwnerReason, Actor, AuditAction, find_ticket, update_ticket,
}
use ai_email_support_agent.Db.Sends.{World, Message, audit_in}

abbrev pub max_tickets_per_sender_per_day : ℕ
max_tickets_per_sender_per_day = 5

abbrev pub on_thread : ℕ → ℕ → Ticket → Bool
on_thread connection thread t = t.connection_id == connection && t.provider_thread_id == thread

unfoldable pub find_ticket_by_thread : ℕ → ℕ → List Ticket → Option Ticket
find_ticket_by_thread connection thread [] = none
find_ticket_by_thread connection thread (t ∷ ts) =
    if on_thread connection thread t then some t else find_ticket_by_thread connection thread ts

-- `ORDER BY sent_at DESC`, where NULL comes first.
abbrev is_newer : Option ℕ → Option ℕ → Bool
is_newer none other = true
is_newer (some a) none = false
is_newer (some a) (some b) = leb b a

abbrev newest : Message → Option Message → Message
newest m none = m
newest m (some n) = if is_newer m.sent_at n.sent_at then m else n

unfoldable pub includes : ℕ → List ℕ → Bool
includes id [] = false
includes id (r ∷ rs) = r == id || includes id rs

abbrev names_one_of : List ℕ → Option ℕ → Bool
names_one_of rfc_ids none = false
names_one_of rfc_ids (some id) = includes id rfc_ids

-- The newest message of the connection that one of the ids names.
unfoldable pub find_referenced : ℕ → List ℕ → List Message → Option Message
find_referenced connection rfc_ids [] = none
find_referenced connection rfc_ids (m ∷ ms) =
    let rest = find_referenced connection rfc_ids ms in
    if m.connection_id == connection && names_one_of rfc_ids m.rfc_message_id
    then some (newest m rest)
    else rest

-- The inner join on the ticket; `messages.ticket_id` references a row that is there.
unfoldable pub find_ticket_by_references : ℕ → List ℕ → World → Option Ticket
find_ticket_by_references connection rfc_ids w =
    elim (find_referenced connection rfc_ids w.messages) [
      | none ↦ none
      | some m ↦ find_ticket m.ticket_id w.tables.tickets
    ]

abbrev same_message : ℕ → ℕ → Message → Bool
same_message connection provider_message m =
    m.connection_id == connection && m.provider_message_id == provider_message

unfoldable pub has_message : ℕ → ℕ → List Message → Bool
has_message connection provider_message [] = false
has_message connection provider_message (m ∷ ms) =
    same_message connection provider_message m || has_message connection provider_message ms

-- `ON CONFLICT (connection_id, provider_message_id) DO NOTHING RETURNING id`
unfoldable pub insert_message_gated : Message → List Message → List Message × Bool
insert_message_gated m ms =
    if has_message m.connection_id m.provider_message_id ms
    then (ms, false)
    else (ms ++ m ∷ [], true)

pub record NewTicket : Type 0 where
  pub connection_id : ℕ
  pub provider_thread_id : ℕ
  pub agent_id : Option ℕ
  pub customer_email : Option Text
  pub subject : Option Text

-- The row with the defaults of its columns.
unfoldable pub opened : NewTicket → ℕ → ℕ → Ticket
opened row id now = record {
  id = id;
  connection_id = row.connection_id;
  provider_thread_id = row.provider_thread_id;
  agent_id = row.agent_id;
  customer_email = row.customer_email;
  subject = row.subject;
  status = TicketStatus.new;
  needs_owner_reason = none;
  spam_flagged = false;
  is_automated = none;
  has_attachments = false;
  inbound_count = 0;
  last_inbound_at = none;
  triage_failure_count = 0;
  last_agent_run_at = none;
  last_agent_prompted_at = none;
  last_agent_finished_at = none;
  agent_failure_count = 0;
  owner_redraft_feedback = none;
  redraft_count = 0;
  escalation_notified_at = none;
  ai_handled_month = none;
  created_at = now;
}

pub record RecordInboundInput : Type 0 where
  pub sent_at : ℕ
  pub spam_flagged : Bool
  pub has_attachments : Bool
  pub automated : Bool

abbrev pub greatest : Option ℕ → ℕ → ℕ
greatest none at = at
greatest (some before) at = if ltb before at then at else before

-- `at >= coalesce(last_inbound_at, '-infinity')`
abbrev pub is_latest : Option ℕ → ℕ → Bool
is_latest none at = true
is_latest (some before) at = leb before at

-- The SET list of `recordInboundOnTicket`: each expression reads the row before the update.
unfoldable pub record_inbound : RecordInboundInput → Ticket → Ticket
record_inbound i t = record t {
  last_inbound_at = some (greatest t.last_inbound_at i.sent_at);
  spam_flagged = if is_latest t.last_inbound_at i.sent_at then i.spam_flagged else t.spam_flagged;
  inbound_count = t.inbound_count + 1;
  has_attachments = t.has_attachments || i.has_attachments;
  is_automated = if i.automated then some true else t.is_automated;
}

abbrev pub is_parked : Ticket → Bool
is_parked t = ticket_eq t.status resolved || ticket_eq t.status waiting_on_customer

abbrev pub reopened_row : Ticket → Ticket
reopened_row t = record t {
  status = TicketStatus.new;
  triage_failure_count = 0;
  agent_failure_count = 0;
  owner_redraft_feedback = none;
  redraft_count = 0;
  last_agent_run_at = none;
}

unfoldable pub reopen_if_eligible : ℕ → Bool → List Ticket → List Ticket × Bool
reopen_if_eligible ticket dmarc_pass ts =
    if dmarc_pass then update_ticket ticket is_parked reopened_row ts else (ts, false)

abbrev pub not_needs_owner : Ticket → Bool
not_needs_owner t = not (ticket_eq t.status needs_owner)

abbrev pub tripped : Ticket → Ticket
tripped t = record t {
  status = needs_owner;
  needs_owner_reason = some NeedsOwnerReason.tripwire;
  escalation_notified_at = none;
}

unfoldable pub apply_tripwire : ℕ → World → Bool × World
apply_tripwire ticket w =
    let (ts, hit) = update_ticket ticket not_needs_owner tripped w.tables.tickets in
    let w' = record w { tables = record w.tables { tickets = ts } } in
    if hit
    then (true, audit_in Actor.mailbox_sync AuditAction.ticket_tripwire ticket w')
    else (false, w')

abbrev pub is_sender : Text → Ticket → Bool
is_sender email t = elim t.customer_email [ none ↦ false | some e ↦ text_eq e email ]

unfoldable pub count_since : Text → ℕ → List Ticket → ℕ
count_since email midnight [] = 0
count_since email midnight (t ∷ ts) =
    let rest = count_since email midnight ts in
    if is_sender email t && leb midnight t.created_at then suc rest else rest

abbrev later : Ticket → Option Ticket → Ticket
later t none = t
later t (some u) = if ltb t.created_at u.created_at then u else t

-- `ORDER BY created_at DESC LIMIT 1`
unfoldable pub newest_of : Text → ℕ → List Ticket → Option Ticket
newest_of email connection [] = none
newest_of email connection (t ∷ ts) =
    let rest = newest_of email connection ts in
    if is_sender email t && t.connection_id == connection then some (later t rest) else rest

-- `midnight` is the UTC midnight before `now`; an empty address is none.
unfoldable pub find_flood_fold_target : ℕ → ℕ → Option Text → List Ticket → Option Ticket
find_flood_fold_target connection midnight none ts = none
find_flood_fold_target connection midnight (some []) ts = none
find_flood_fold_target connection midnight (some (a ∷ email)) ts =
    if ltb (count_since (a ∷ email) midnight ts) max_tickets_per_sender_per_day
    then none
    else newest_of (a ∷ email) connection ts
