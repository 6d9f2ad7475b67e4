-- ===== src/Mail/Ingest/Replay.antt =====
-- packages/mail/src/sync.ts: a message that is ingested twice.
use ai_email_support_agent.Base.{
  arith, ℕ, ◌≡◌, ◌∙◌, refl, sym, subst, Bool, true, false, Option, some, none, List, [], ◌++◌, ◌∷◌,
  ◌⊎◌, hits, Bool-cases, Option-cases, inl, inr, ==_refl,
}
use ai_email_support_agent.Db.Tables.{Ticket, always, update_ticket}
use ai_email_support_agent.Db.Sends.{World, Message, Direction, audit_in}
use ai_email_support_agent.Mail.Store.{
  has_message, insert_message_gated, opened, find_ticket_by_thread, on_thread, record_inbound,
  reopen_if_eligible, apply_tripwire, is_parked, reopened_row, not_needs_owner, tripped,
}
use ai_email_support_agent.Mail.Ingest.{
  Context, Mail, ingest, ingest_on, ingest_known, open_ticket, known_ticket, fold_target,
  first_some, callbacks, message_of, inserted_outcome, note_inbound, tripwire_if, inbound_input,
}

-- Where the gate refuses the message and its ticket is known, nothing is left to do.
ingest_refused :
    (c : Context) (m : Mail) (w : World) (t : Ticket) (reported : List ℕ)
    → first_some (known_ticket c m w) (fold_target c m w) ≡ some t
    → has_message c.connection_id m.id w.messages ≡ true
    → ((ingest c m w).1 ≡ w) × (callbacks reported (ingest c m w).0 ≡ [])
unfolding ingest ingest_on insert_message_gated callbacks
ingest_refused c m w t reported found seen = rw (found, seen) (refl, refl)

-- A thread has a ticket.
abbrev has_ticket : ℕ → ℕ → List Ticket → Bool
has_ticket connection thread ts = hits always (find_ticket_by_thread connection thread ts)

module _ (connection thread : ℕ) where
  has_ticket-snoc :
      (ts : List Ticket) (t : Ticket)
      → on_thread connection thread t ≡ true
      → has_ticket connection thread (ts ++ t ∷ []) ≡ true
  unfolding find_ticket_by_thread
  has_ticket-snoc [] t h = rw h refl
  has_ticket-snoc (x ∷ xs) t h = elim (Bool-cases (on_thread connection thread x)) [
    | inl here ↦ rw here refl
    | inr there ↦ rw there (has_ticket-snoc xs t h)
  ]

  has_ticket-update :
      (k : ℕ) (guard : Ticket → Bool) (set : Ticket → Ticket)
      → ((t : Ticket) → on_thread connection thread (set t) ≡ on_thread connection thread t)
      → (ts : List Ticket)
      → has_ticket connection thread (update_ticket k guard set ts).0
        ≡ has_ticket connection thread ts
  unfolding find_ticket_by_thread update_ticket
  has_ticket-update k guard set keeps [] = refl
  has_ticket-update k guard set keeps (t ∷ ts) =
      ground (arith, keeps t, has_ticket-update k guard set keeps ts)

  has_ticket-tripwire :
      (b : Bool) (k : ℕ) (w : World)
      → has_ticket connection thread (tripwire_if b k w).1.tables.tickets
        ≡ has_ticket connection thread w.tables.tickets
  unfolding apply_tripwire audit_in ai_email_support_agent.Db.Tables.audit
  has_ticket-tripwire false k w = refl
  has_ticket-tripwire true k w =
      let kept = has_ticket-update k not_needs_owner tripped (λ t. refl) w.tables.tickets in
      elim (Bool-cases (update_ticket k not_needs_owner tripped w.tables.tickets).1) [
        | inl hit ↦ rw hit kept
        | inr miss ↦ rw miss kept
      ]

  has_ticket-reopen :
      (k : ℕ) (b : Bool) (ts : List Ticket)
      → has_ticket connection thread (reopen_if_eligible k b ts).0 ≡ has_ticket connection thread ts
  unfolding reopen_if_eligible
  has_ticket-reopen k true ts = has_ticket-update k is_parked reopened_row (λ t. refl) ts
  has_ticket-reopen k false ts = refl

  has_ticket-note :
      (m : Mail) (k : ℕ) (w : World)
      → has_ticket connection thread (note_inbound m k w).2.tables.tickets
        ≡ has_ticket connection thread w.tables.tickets
  unfolding note_inbound record_inbound
  has_ticket-note m k w =
      has_ticket-tripwire m.tripwire k _
      ∙ has_ticket-reopen k m.dmarc_pass _
      ∙ has_ticket-update k always (record_inbound (inbound_input m)) (λ t. refl) w.tables.tickets

  has_ticket-outcome :
      (d : Direction) (m : Mail) (t : Ticket) (created : Bool) (w : World)
      → has_ticket connection thread (inserted_outcome d m t created w).1.tables.tickets
        ≡ has_ticket connection thread w.tables.tickets
  unfolding inserted_outcome
  has_ticket-outcome Direction.outbound m t created w = refl
  has_ticket-outcome Direction.inbound m t created w = has_ticket-note m t.id w

  has_ticket-ingest_on :
      (c : Context) (m : Mail) (t : Ticket) (created : Bool) (w : World)
      → has_ticket connection thread (ingest_on c m t created w).1.tables.tickets
        ≡ has_ticket connection thread w.tables.tickets
  unfolding ingest_on
  has_ticket-ingest_on c m t created w =
      elim (Bool-cases (insert_message_gated (message_of c m t.id) w.messages).1) [
        | inl new ↦ rw new (has_ticket-outcome m.direction m t created _)
        | inr old ↦ rw old refl
      ]

-- The messages, which only the gate's insert adds to.
tripwire_if-messages : (b : Bool) (k : ℕ) (w : World) → (tripwire_if b k w).1.messages ≡ w.messages
unfolding apply_tripwire audit_in
tripwire_if-messages false k w = refl
tripwire_if-messages true k w = ground arith

outcome-messages :
    (d : Direction) (m : Mail) (t : Ticket) (created : Bool) (w : World)
    → (inserted_outcome d m t created w).1.messages ≡ w.messages
unfolding inserted_outcome note_inbound
outcome-messages Direction.outbound m t created w = refl
outcome-messages Direction.inbound m t created w = tripwire_if-messages m.tripwire t.id _

has_message-snoc :
    (ms : List Message) (x : Message)
    → has_message x.connection_id x.provider_message_id (ms ++ x ∷ []) ≡ true
unfolding has_message
has_message-snoc [] x = ground (arith, ==_refl x.connection_id, ==_refl x.provider_message_id)
has_message-snoc (m ∷ ms) x = ground (arith, has_message-snoc ms x)

ingest_on-stored :
    (c : Context) (m : Mail) (t : Ticket) (created : Bool) (w : World)
    → has_message c.connection_id m.id (ingest_on c m t created w).1.messages ≡ true
unfolding ingest_on insert_message_gated
ingest_on-stored c m t created w = elim (Bool-cases (has_message c.connection_id m.id w.messages)) [
  | inl old ↦ rw old old
  | inr new ↦
      rw (new, outcome-messages m.direction m t created)
        (has_message-snoc w.messages (message_of c m t.id))
]

ingest_known-stored :
    (c : Context) (m : Mail) (known : Option Ticket) (w : World)
    → has_message c.connection_id m.id (ingest_known c m known w).1.messages ≡ true
ingest_known-stored c m (some t) w = ingest_on-stored c m t false w
ingest_known-stored c m none w =
    ingest_on-stored c m (open_ticket c m w).0 true (open_ticket c m w).1

ingest-stored :
    (c : Context) (m : Mail) (w : World)
    → has_message c.connection_id m.id (ingest c m w).1.messages ≡ true
unfolding ingest
ingest-stored c m w =
    ingest_known-stored c m (first_some (known_ticket c m w) (fold_target c m w)) w

opened-thread :
    (c : Context) (m : Mail) (w : World)
    → has_ticket c.connection_id m.thread_id (open_ticket c m w).1.tables.tickets ≡ true
unfolding open_ticket opened
opened-thread c m w =
    has_ticket-snoc c.connection_id m.thread_id w.tables.tickets _
      (ground (arith, ==_refl c.connection_id, ==_refl m.thread_id))

-- Whether the thread of a message has a ticket, or the message opens one.
abbrev pub OnOwnThread : Context → Mail → World → Type 0
OnOwnThread c m w =
    ((t : Ticket) × (find_ticket_by_thread c.connection_id m.thread_id w.tables.tickets ≡ some t))
    ⊎ (first_some (known_ticket c m w) (fold_target c m w) ≡ none)

ingest-thread :
    (c : Context) (m : Mail) (w : World)
    → OnOwnThread c m w
    → has_ticket c.connection_id m.thread_id (ingest c m w).1.tables.tickets ≡ true
unfolding ingest known_ticket
ingest-thread c m w (inl (t, found)) =
    rw found (has_ticket-ingest_on c.connection_id m.thread_id c m t false w ∙ rw found refl)
ingest-thread c m w (inr new) = rw new (
    has_ticket-ingest_on c.connection_id m.thread_id c m (open_ticket c m w).0 true
      (open_ticket c m w).1
    ∙ opened-thread c m w)

-- Once a message has been ingested, whose thread had a ticket or which opened one, ingesting it again,
-- in any later run of the mailbox, with any routing and clock, whatever the run reported before, changes
-- no table and fires no callback.
pub ingest-twice :
    (c c' : Context) (m : Mail) (w : World) (reported : List ℕ)
    → OnOwnThread c m w
    → c'.connection_id ≡ c.connection_id
    → ((ingest c' m (ingest c m w).1).1 ≡ (ingest c m w).1)
      × (callbacks reported (ingest c' m (ingest c m w).1).0 ≡ [])
unfolding known_ticket
ingest-twice c c' m w reported own same =
    let stored : has_message c'.connection_id m.id (ingest c m w).1.messages ≡ true =
      subst (λ n. has_message n m.id (ingest c m w).1.messages ≡ true) (sym same)
        (ingest-stored c m w) in
    let ticketed : has_ticket c'.connection_id m.thread_id (ingest c m w).1.tables.tickets ≡ true =
      subst (λ n. has_ticket n m.thread_id (ingest c m w).1.tables.tickets ≡ true) (sym same)
        (ingest-thread c m w own) in
    elim (Option-cases
      (find_ticket_by_thread c'.connection_id m.thread_id (ingest c m w).1.tables.tickets)) [
        | inl absent ↦ let no : false ≡ true = rw absent at ticketed in absurd (cc)
        | inr (t, here) ↦ ingest_refused c' m (ingest c m w).1 t reported (rw here refl) stored
      ]
