-- ===== src/Mail/Ingest/Owner.antt =====
-- packages/mail/src/sync.ts: a message with a tripwire phrase.
use ai_email_support_agent.Base.{
  arith, ℕ, ◌≡◌, refl, Bool, true, false, Option, some, none, if◌then◌else◌, hits, updated,
  Bool-cases, inl, inr,
}
use ai_email_support_agent.Db.Tables.{Ticket, find_ticket, update_ticket}
use ai_email_support_agent.Db.Tables.Rows.{find_ticket-update}
use ai_email_support_agent.Db.Sends.{World, Direction, audit_in}
use ai_email_support_agent.Mail.Store.{
  insert_message_gated, apply_tripwire, not_needs_owner, tripped,
}
use ai_email_support_agent.Mail.Ingest.{
  Context, Mail, MessageOutcome, ingest, ingest_on, ingest_known, open_ticket, inserted_outcome,
  note_inbound, known_ticket, fold_target, first_some, is_inbound, message_of,
}

abbrev pub outside_queue : ℕ → World → Bool
outside_queue ticket w = hits not_needs_owner (find_ticket ticket w.tables.tickets)

tripped-queue :
    (r : Option Ticket) → hits not_needs_owner (updated not_needs_owner tripped r) ≡ false
tripped-queue none = refl
tripped-queue (some t) = ground arith

apply_tripwire-queue : (k : ℕ) (w : World) → outside_queue k (apply_tripwire k w).1 ≡ false
unfolding apply_tripwire audit_in find_ticket ai_email_support_agent.Db.Tables.audit
apply_tripwire-queue k w =
    let e = find_ticket-update not_needs_owner tripped (λ t. refl) k w.tables.tickets in
    elim (Bool-cases (update_ticket k not_needs_owner tripped w.tables.tickets).1) [
      | inl hit ↦ rw (hit, e) (tripped-queue (find_ticket k w.tables.tickets))
      | inr miss ↦ rw (miss, e) (tripped-queue (find_ticket k w.tables.tickets))
    ]

note_inbound-queue :
    (m : Mail) (k : ℕ) (w : World)
    → m.tripwire ≡ true
    → outside_queue k (note_inbound m k w).2 ≡ false
unfolding note_inbound
note_inbound-queue m k w h = rw h (apply_tripwire-queue k _)

abbrev pub InQueue : MessageOutcome × World → Type 0
InQueue (o, w) = outside_queue o.ticket_id w ≡ false

queued_outcome :
    (d : Direction) (m : Mail) (t : Ticket) (created : Bool) (w : World)
    → is_inbound d ≡ true
    → m.tripwire ≡ true
    → InQueue (inserted_outcome d m t created w)
unfolding inserted_outcome
queued_outcome Direction.inbound m t created w inbound trip = note_inbound-queue m t.id w trip
queued_outcome Direction.outbound m t created w inbound trip = ground (arith, inbound)

gated :
    (b : Bool) (x y : MessageOutcome × World)
    → InQueue x
    → y.0.inserted ≡ false
    → (if b then x else y).0.inserted ≡ true
    → InQueue (if b then x else y)
gated true x y q n h = q
gated false x y q n h = ground (arith, n, h)

ingest_on-queue :
    (c : Context) (m : Mail) (t : Ticket) (created : Bool) (w : World)
    → is_inbound m.direction ≡ true
    → m.tripwire ≡ true
    → (ingest_on c m t created w).0.inserted ≡ true
    → InQueue (ingest_on c m t created w)
unfolding ingest_on
ingest_on-queue c m t created w inbound trip h =
    gated (insert_message_gated (message_of c m t.id) w.messages).1 _ _
      (queued_outcome m.direction m t created _ inbound trip) refl h

ingest_known-queue :
    (c : Context) (m : Mail) (known : Option Ticket) (w : World)
    → is_inbound m.direction ≡ true
    → m.tripwire ≡ true
    → (ingest_known c m known w).0.inserted ≡ true
    → InQueue (ingest_known c m known w)
ingest_known-queue c m (some t) w inbound trip h = ingest_on-queue c m t false w inbound trip h
ingest_known-queue c m none w inbound trip h =
    ingest_on-queue c m (open_ticket c m w).0 true (open_ticket c m w).1 inbound trip h

-- An inbound message with a tripwire phrase that is stored never leaves its ticket outside the owner's
-- queue: a new ticket, one that it reopens, and one that it is folded onto alike.
pub ingest-tripwire :
    (c : Context) (m : Mail) (w : World)
    → is_inbound m.direction ≡ true
    → m.tripwire ≡ true
    → (ingest c m w).0.inserted ≡ true
    → outside_queue (ingest c m w).0.ticket_id (ingest c m w).1 ≡ false
unfolding ingest
ingest-tripwire c m w inbound trip h =
    ingest_known-queue c m (first_some (known_ticket c m w) (fold_target c m w)) w inbound trip h
