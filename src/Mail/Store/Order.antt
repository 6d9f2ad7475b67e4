-- ===== src/Mail/Store/Order.antt =====
-- packages/mail/src/store.ts: what a ticket says of its messages, in whatever order they arrive.
use ai_email_support_agent.Base.{
  arith, ℕ, ◌≡◌, refl, Bool, true, false, Option, none, some, ◌==◌, ◌||◌, if◌then◌else◌,
}
use ai_email_support_agent.Db.Tables.{Ticket}
use ai_email_support_agent.Mail.Store.{RecordInboundInput, record_inbound, greatest, is_latest}

greatest_comm :
    (b : Option ℕ) (x y : ℕ) → greatest (some (greatest b x)) y ≡ greatest (some (greatest b y)) x
greatest_comm none x y = ground arith
greatest_comm (some b) x y = ground arith

spam_comm :
    (b : Option ℕ) (x y : ℕ) (old p q : Bool)
    → (x == y) ≡ false
    → (if is_latest (some (greatest b x)) y then q else (if is_latest b x then p else old))
      ≡ (if is_latest (some (greatest b y)) x then p else (if is_latest b y then q else old))
spam_comm none x y old p q ne = ground arith
spam_comm (some b) x y old p q ne = ground arith

or_comm : (a b c : Bool) → ((a || b) || c) ≡ ((a || c) || b)
or_comm a b c = ground arith

automated_comm :
    (a b : Bool) (old : Option Bool)
    → (if b then some true else (if a then some true else old))
      ≡ (if a then some true else (if b then some true else old))
automated_comm a b old = ground arith

-- Two messages of a ticket that were sent at different times leave it the same in either order of their
-- arrival: the latest contact, the folder of the latest message, the count, the attachments and the
-- mark of an automated sender.
pub record_inbound-order :
    (a b : RecordInboundInput) (t : Ticket)
    → (a.sent_at == b.sent_at) ≡ false
    → record_inbound b (record_inbound a t) ≡ record_inbound a (record_inbound b t)
unfolding record_inbound
record_inbound-order a b t ne =
    rw
      (
        greatest_comm t.last_inbound_at a.sent_at b.sent_at,
        spam_comm t.last_inbound_at a.sent_at b.sent_at t.spam_flagged a.spam_flagged b.spam_flagged
            ne,
        or_comm t.has_attachments a.has_attachments b.has_attachments,
        automated_comm a.automated b.automated t.is_automated,
      )
      refl
