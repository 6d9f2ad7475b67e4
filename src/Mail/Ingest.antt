-- ===== src/Mail/Ingest.antt =====
-- packages/mail/src/sync.ts: the transaction of `ingestMessageId` on one message, after the routing, the
-- full fetch and the interception of a verification code, and the callbacks after its commit.
pub mod Replay
pub mod Owner
mod Tests
use ai_email_support_agent.Base.{
  ℕ, suc, Bool, true, false, not, Option, none, some, List, [], ◌∷◌, ◌++◌, ◌==◌, ◌&&◌, ◌||◌,
  if◌then◌else◌,
}
use ai_email_support_agent.Core.Transitions.{TicketStatus, ticket_eq, triaged}
use ai_email_support_agent.Db.Tables.{Text, Ticket, update_ticket, always}
use ai_email_support_agent.Db.Sends.{World, Message, Direction}
use ai_email_support_agent.Mail.Store.{
  NewTicket, opened, RecordInboundInput, record_inbound, find_ticket_by_thread,
  find_ticket_by_references, find_flood_fold_target, insert_message_gated, reopen_if_eligible,
  apply_tripwire,
}

-- `NormalizedMessage` with what is computed from it: the reference tokens, the verdict of DMARC, the
-- headers of an automated sender, and whether a tripwire phrase matched.
pub record Mail : Type 0 where
  pub id : ℕ
  pub thread_id : ℕ
  pub from_addr : Option Text
  pub to_addr : Option Text
  pub subject : Option Text
  pub direction : Direction
  pub rfc_message_id : Option ℕ
  pub references : List ℕ
  pub draft_id : Option ℕ
  pub sent_at : ℕ
  pub dmarc_pass : Bool
  pub spam_flagged : Bool
  pub has_attachments : Bool
  pub automated : Bool
  pub tripwire : Bool

-- The run's own values: the connection, the routed agent, the clock and its UTC midnight.
pub record Context : Type 0 where
  pub connection_id : ℕ
  pub agent_id : Option ℕ
  pub now : ℕ
  pub midnight : ℕ

pub record MessageOutcome : Type 0 where
  pub ticket_id : ℕ
  pub direction : Direction
  pub created : Bool
  pub prior_status : TicketStatus
  pub inserted : Bool
  pub reopened : Bool
  pub tripwired : Bool

abbrev pub is_inbound : Direction → Bool
is_inbound Direction.inbound = true
is_inbound Direction.outbound = false

abbrev pub first_some : Option Ticket → Option Ticket → Option Ticket
first_some (some t) other = some t
first_some none other = other

unfoldable pub known_ticket : Context → Mail → World → Option Ticket
known_ticket c m w =
    first_some (find_ticket_by_thread c.connection_id m.thread_id w.tables.tickets)
      (find_ticket_by_references c.connection_id m.references w)

-- Inbound mail that passes DMARC is bounded per sender.
unfoldable pub fold_target : Context → Mail → World → Option Ticket
fold_target c m w =
    if is_inbound m.direction && m.dmarc_pass
    then find_flood_fold_target c.connection_id c.midnight m.from_addr w.tables.tickets
    else none

abbrev pub new_ticket : Context → Mail → NewTicket
new_ticket c m = record {
  connection_id = c.connection_id;
  provider_thread_id = m.thread_id;
  agent_id = c.agent_id;
  customer_email = if is_inbound m.direction then m.from_addr else m.to_addr;
  subject = m.subject;
}

-- `createTicketIfAbsent`, where no row has the connection and the thread.
unfoldable pub open_ticket : Context → Mail → World → Ticket × World
open_ticket c m w =
    let t = opened (new_ticket c m) w.tables.next_id c.now in
    (
      t,
      record w {
        tables = record w.tables {
          tickets = w.tables.tickets ++ t ∷ [];
          next_id = suc w.tables.next_id;
        };
      },
    )

abbrev pub message_of : Context → Mail → ℕ → Message
message_of c m ticket = record {
  ticket_id = ticket;
  connection_id = c.connection_id;
  provider_message_id = m.id;
  direction = m.direction;
  rfc_message_id = m.rfc_message_id;
  draft_id = m.draft_id;
  sent_at = some m.sent_at;
}

abbrev pub inbound_input : Mail → RecordInboundInput
inbound_input m = record {
  sent_at = m.sent_at;
  spam_flagged = m.spam_flagged;
  has_attachments = m.has_attachments;
  automated = m.automated;
}

abbrev pub tripwire_if : Bool → ℕ → World → Bool × World
tripwire_if true ticket w = apply_tripwire ticket w
tripwire_if false ticket w = (false, w)

-- The bookkeeping of an inbound message, the reopen, and then the tripwire.
unfoldable pub note_inbound : Mail → ℕ → World → Bool × Bool × World
note_inbound m ticket w =
    let ts = (update_ticket ticket always (record_inbound (inbound_input m)) w.tables.tickets).0 in
    let (ts', reopened) = reopen_if_eligible ticket m.dmarc_pass ts in
    let (tripwired, w') =
      tripwire_if m.tripwire ticket (record w { tables = record w.tables { tickets = ts' } }) in
    (reopened, tripwired, w')

abbrev pub refused_outcome : Mail → Ticket → Bool → MessageOutcome
refused_outcome m t created = record {
  ticket_id = t.id;
  direction = m.direction;
  created = created;
  prior_status = t.status;
  inserted = false;
  reopened = false;
  tripwired = false;
}

-- Everything after the gate.
unfoldable pub inserted_outcome : Direction → Mail → Ticket → Bool → World → MessageOutcome × World
inserted_outcome Direction.outbound m t created w =
    (record (refused_outcome m t created) { inserted = true }, w)
inserted_outcome Direction.inbound m t created w =
    let (reopened, tripwired, w') = note_inbound m t.id w in
    (
      record (refused_outcome m t created) {
        inserted = true;
        reopened = reopened;
        tripwired = tripwired;
      },
      w',
    )

-- Step 6: the gate.
unfoldable pub ingest_on : Context → Mail → Ticket → Bool → World → MessageOutcome × World
ingest_on c m t created w =
    let (messages, inserted) = insert_message_gated (message_of c m t.id) w.messages in
    if inserted
    then inserted_outcome m.direction m t created (record w { messages = messages })
    else (refused_outcome m t created, w)

abbrev pub ingest_opened : Context → Mail → Ticket × World → MessageOutcome × World
ingest_opened c m (t, w) = ingest_on c m t true w

abbrev pub ingest_known : Context → Mail → Option Ticket → World → MessageOutcome × World
ingest_known c m (some t) w = ingest_on c m t false w
ingest_known c m none w = ingest_opened c m (open_ticket c m w)

unfoldable pub ingest : Context → Mail → World → MessageOutcome × World
ingest c m w = ingest_known c m (first_some (known_ticket c m w) (fold_target c m w)) w

pub data Callback : Type 0 where
  on_new_inbound_ticket on_tripwire : ℕ → Callback

abbrev pub is_new_work : MessageOutcome → Bool
is_new_work o = o.created || o.reopened || ticket_eq o.prior_status triaged

unfoldable pub was_reported : ℕ → List ℕ → Bool
was_reported ticket [] = false
was_reported ticket (k ∷ ks) = k == ticket || was_reported ticket ks

-- Step 7, with the tickets that the run has reported before.
unfoldable pub callbacks : List ℕ → MessageOutcome → List Callback
callbacks reported o =
    if o.inserted && is_inbound o.direction
    then (if is_new_work o && not (was_reported o.ticket_id reported)
        then on_new_inbound_ticket o.ticket_id ∷ []
        else [])
      ++ (if o.tripwired then on_tripwire o.ticket_id ∷ [] else [])
    else []
