-- ===== src/Worker/Send/Thread.antt =====
-- apps/worker/src/jobs/send-execute.ts: the messages of the thread, whether the customer wrote again, and
-- the message that a reply answers.
use ai_email_support_agent.Base.{
  ℕ, Bool, true, false, not, Option, none, some, List, [], ◌∷◌, ◌==◌, ◌&&◌, ◌||◌, leb, ltb,
  if◌then◌else◌, nat_eq,
}
use ai_email_support_agent.Db.Sends.{Message, Direction}

abbrev pub is_inbound : Message → Bool
is_inbound m = elim m.direction [ Direction.inbound ↦ true | Direction.outbound ↦ false ]

-- `ORDER BY sent_at ASC`, which puts NULL last; the rows stand in the order of `created_at`.
abbrev sorts_before : Option ℕ → Option ℕ → Bool
sorts_before (some a) (some b) = leb a b
sorts_before (some a) none = true
sorts_before none none = true
sorts_before none (some b) = false

unfoldable pub insert_sorted : Message → List Message → List Message
insert_sorted m [] = m ∷ []
insert_sorted m (x ∷ xs) =
    let rest = insert_sorted m xs in
    if sorts_before m.sent_at x.sent_at then m ∷ x ∷ xs else x ∷ rest

unfoldable pub thread_of : ℕ → List Message → List Message
unfolding insert_sorted
thread_of ticket [] = []
thread_of ticket (m ∷ ms) =
    let rest = thread_of ticket ms in if m.ticket_id == ticket then insert_sorted m rest else rest

abbrev is_after : Option ℕ → ℕ → Bool
is_after none snapshot = false
is_after (some at) snapshot = ltb snapshot at

unfoldable pub has_newer_inbound : ℕ → List Message → Bool
has_newer_inbound snapshot [] = false
has_newer_inbound snapshot (m ∷ ms) =
    (is_inbound m && is_after m.sent_at snapshot) || has_newer_inbound snapshot ms

-- `[...thread].reverse().find(test)`
unfoldable pub find_last : (Message → Bool) → List Message → Option Message
find_last test [] = none
find_last test (m ∷ ms) = elim (find_last test ms) [
  | some x ↦ some x
  | none ↦ if test m then some m else none
]

abbrev pub is_some {ℓ} : {A : Type ℓ} → Option A → Bool
is_some none = false
is_some (some _) = true

abbrev outbound_with_id : Message → Bool
outbound_with_id m = not (is_inbound m) && is_some m.rfc_message_id

abbrev rfc_of : Option Message → Option ℕ
rfc_of none = none
rfc_of (some m) = m.rfc_message_id

abbrev pub or_else : Option ℕ → Option ℕ → Option ℕ
or_else (some a) b = some a
or_else none b = b

unfoldable pub in_reply_to_of : Message → List Message → Option ℕ
unfolding find_last
in_reply_to_of latest thread =
    or_else latest.rfc_message_id (rfc_of (find_last outbound_with_id thread))
