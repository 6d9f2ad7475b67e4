-- ===== src/Mail/Ingest/Tests.antt =====
-- packages/mail/src/sync.ts and store.ts: runs on concrete inputs.
use ai_email_support_agent.Base.{inr, ◌≡◌, refl, true, false, none, some, List, [], ◌∷◌}
use ai_email_support_agent.Core.Transitions.{TicketStatus}
use ai_email_support_agent.Db.Tables.{Ticket}
use ai_email_support_agent.Db.Sends.{World, Message, Direction}
use ai_email_support_agent.Mail.Store.{
  RecordInboundInput, record_inbound, opened, find_ticket_by_thread, find_referenced,
  find_ticket_by_references, find_flood_fold_target, count_since, has_message, insert_message_gated,
  includes,
}
use ai_email_support_agent.Mail.Store.Order.{record_inbound-order}
use ai_email_support_agent.Mail.Ingest.{
  Context, Mail, ingest, ingest_on, callbacks, known_ticket, fold_target, open_ticket, new_ticket,
  inserted_outcome, note_inbound,
}
use ai_email_support_agent.Mail.Ingest.Replay.{ingest-twice}
use ai_email_support_agent.Mail.Ingest.Owner.{outside_queue, ingest-tripwire}

abbrev context : Context
context = record { connection_id = 1; agent_id = some 3; now = 90000000; midnight = 86400000 }

abbrev mail : Mail
mail = record {
  id = 50;
  thread_id = 71;
  from_addr = some (99 ∷ []);
  to_addr = none;
  subject = none;
  direction = Direction.inbound;
  rfc_message_id = some 600;
  references = [];
  draft_id = none;
  sent_at = 2000;
  dmarc_pass = true;
  spam_flagged = false;
  has_attachments = false;
  automated = false;
  tripwire = false;
}

abbrev ticket : Ticket
ticket = record (opened (new_ticket context mail) 5 900) {
  provider_thread_id = 70;
  status = TicketStatus.waiting_on_customer;
}

abbrev world_with : List Message → World
world_with messages = record {
  tables = record { tickets = ticket ∷ []; notifications = []; audits = []; next_id = 40 };
  drafts = [];
  sends = [];
  messages = messages;
  counters = [];
  jobs = [];
  replies = [];
}

-- The message stands on the ticket of another thread, where the bound on its sender put it.
abbrev folded : World
folded = world_with (
    record {
      ticket_id = 5;
      connection_id = 1;
      provider_message_id = 50;
      direction = Direction.inbound;
      rfc_message_id = some 600;
      draft_id = none;
      sent_at = some 2000;
    }
    ∷ [])

-- Seen again on a later day, it opens a ticket and is not stored on it.
folded_seen_again :
    ((ingest context mail folded).0.created ≡ true)
    × ((ingest context mail folded).0.inserted ≡ false)
unfolding ingest ingest_on find_ticket_by_thread find_referenced find_ticket_by_references
    known_ticket has_message fold_target find_flood_fold_target count_since opened includes
    open_ticket insert_message_gated
folded_seen_again = (refl, refl)

ingest-twice_example :
    ((ingest context mail (ingest context mail (world_with [])).1).1
      ≡ (ingest context mail (world_with [])).1)
    × (callbacks (40 ∷ []) (ingest context mail (ingest context mail (world_with [])).1).0 ≡ [])
unfolding find_ticket_by_thread find_referenced find_ticket_by_references known_ticket fold_target
    find_flood_fold_target count_since opened includes
ingest-twice_example = ingest-twice context context mail (world_with []) (40 ∷ []) (inr refl) refl

abbrev angry_mail : Mail
angry_mail = record mail { thread_id = 70; tripwire = true }

ingest-tripwire_example :
    outside_queue
      (ingest context angry_mail (world_with [])).0.ticket_id
      (ingest context angry_mail (world_with [])).1
    ≡ false
unfolding ingest ingest_on find_ticket_by_thread known_ticket has_message insert_message_gated
    inserted_outcome note_inbound opened
ingest-tripwire_example = ingest-tripwire context angry_mail (world_with []) refl refl refl

abbrev late_mail : RecordInboundInput
late_mail = record {
  sent_at = 3000;
  spam_flagged = true;
  has_attachments = false;
  automated = false;
}

abbrev early_mail : RecordInboundInput
early_mail = record {
  sent_at = 2000;
  spam_flagged = false;
  has_attachments = true;
  automated = true;
}

record_inbound-order_example :
    record_inbound early_mail (record_inbound late_mail ticket)
    ≡ record_inbound late_mail (record_inbound early_mail ticket)
record_inbound-order_example = record_inbound-order late_mail early_mail ticket refl
