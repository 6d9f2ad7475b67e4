-- ===== src/Db/Sends.antt =====
-- packages/db/src/schema/sends.ts, drafts.ts and mail.ts beside the tables: the rows that the delivery
-- of a reply reads and writes, with what leaves the database, the jobs that are enqueued and the
-- replies that are handed to the mailbox.
use ai_email_support_agent.Base.{
  ℕ, suc, Bool, Option, none, some, List, [], ◌∷◌, ◌++◌, if◌then◌else◌, update_row,
}
use ai_email_support_agent.Db.Tables.{
  Text, Ticket, DedupeKey, Tables, Actor, AuditAction, audit, has_key,
}
use ai_email_support_agent.Db.Drafts.{Draft, OutboundSend}
use ai_email_support_agent.Db.Metering.{Counter}

pub data Direction : Type 0 where
  inbound outbound : Direction

-- A provider's ids and the rfc message ids are numbers, compared only for equality.
pub record Message : Type 0 where
  pub ticket_id : ℕ
  pub connection_id : ℕ
  pub provider_message_id : ℕ
  pub direction : Direction
  pub rfc_message_id : Option ℕ
  pub draft_id : Option ℕ
  pub sent_at : Option ℕ

pub data Job : Type 0 where
  notify_dispatch ticket_draft memory_capture send_execute guidance_suggest : ℕ → Job

-- A call of `client.sendReply`; its marker is the draft's id.
pub record Reply : Type 0 where
  pub thread_id : ℕ
  pub recipient : Text
  pub in_reply_to : ℕ
  pub references : List ℕ
  pub marker : ℕ

pub record World : Type 0 where
  pub tables : Tables
  pub drafts : List Draft
  pub sends : List OutboundSend
  pub messages : List Message
  pub counters : List Counter
  pub jobs : List Job
  pub replies : List Reply

abbrev pub send_id : OutboundSend → ℕ
send_id s = s.id

abbrev pub draft_id : Draft → ℕ
draft_id d = d.id

abbrev pub ticket_id : Ticket → ℕ
ticket_id t = t.id

unfoldable pub enqueue : Job → World → World
enqueue job w = record w { jobs = w.jobs ++ job ∷ [] }

abbrev pub enqueue_page : Option ℕ → World → World
enqueue_page none w = w
enqueue_page (some n) w = enqueue (Job.notify_dispatch n) w

-- `UPDATE drafts SET … WHERE id = … AND guard`
unfoldable pub update_draft : ℕ → (Draft → Bool) → (Draft → Draft) → World → World
update_draft k guard set w = record w { drafts = (update_row draft_id k guard set w.drafts).0 }

unfoldable pub audit_in : Actor → AuditAction → ℕ → World → World
audit_in actor action entity w = record w { tables = audit actor action entity w.tables }

-- `INSERT INTO notifications … ON CONFLICT (dedupe_key) DO NOTHING RETURNING id`
unfoldable pub insert_page : Option ℕ → Option ℕ → DedupeKey → World → Option ℕ × World
insert_page ticket draft dedupe_key w =
    if has_key dedupe_key w.tables.notifications then (none, w) else (
      some w.tables.next_id,
      record w {
        tables = record w.tables {
          notifications =
              w.tables.notifications
              ++ record {
                id = w.tables.next_id;
                reason = none;
                ticket_id = ticket;
                draft_id = draft;
                dedupe_key = dedupe_key;
              }
                ∷ [];
          next_id = suc w.tables.next_id;
        };
      },
    )
