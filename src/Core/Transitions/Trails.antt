-- ===== src/Core/Transitions/Trails.antt =====
-- packages/core/src/transitions.ts: which statuses a row can pass through, by any number of
-- transitions.
use ai_email_support_agent.Base.{
  Bool, true, false, List, [], ◌∷◌, ◌⊎◌, inl, inr, ◌≡◌, refl, sym, ◌↔◌, arith,
}
use ai_email_support_agent.Core.Transitions.{
  includes, check_entries, define_transitions, TicketStatus, auto_sending, needs_owner, resolved,
  DraftStatus, pending, approved, sending, rejected, superseded, expired, OutboundSendStatus,
  queued, claimed, ticket_eq, draft_eq, ticket_statuses, draft_statuses, ticket_matrix,
  draft_matrix, ticket_can, draft_can, outbound_can,
}

-- The statuses that a row takes after `s`, up to `t`.
abbrev pub Trail : {S : Type 0} → (S → S → Bool) → S → List S → S → Type 0
Trail ok s [] t = s ≡ t
Trail ok s (x ∷ xs) t = (ok s x ≡ true) × Trail ok x xs t

-- Some trail leads from one status to the other.
abbrev pub Reaches : {S : Type 0} → (S → S → Bool) → S → S → Type 0
Reaches {S} ok s t = (xs : List S) × Trail ok s xs t

-- No matrix of the four lists a self-transition: the four definitions return.
define_ticket :
    define_transitions ticket_eq ticket_statuses ticket_matrix
    ≡ inr (record { matrix = ticket_matrix })
unfolding define_transitions check_entries ticket_matrix
define_ticket = refl

define_draft :
    define_transitions draft_eq draft_statuses draft_matrix ≡ inr (record { matrix = draft_matrix })
unfolding define_transitions check_entries draft_matrix
define_draft = refl

-- From every status a ticket can still be resolved.
pub ticket_resolvable : (s : TicketStatus) → Reaches ticket_can s resolved
unfolding ticket_can
ticket_resolvable resolved = ([], refl)
ticket_resolvable auto_sending = (needs_owner ∷ resolved ∷ [], (refl, (refl, refl)))
ticket_resolvable _ = (resolved ∷ [], (refl, refl))

-- A draft that has not been approved yet, or has to be approved again.
abbrev pub is_unapproved : DraftStatus → Bool
is_unapproved approved = false
is_unapproved sending = false
is_unapproved DraftStatus.sent = false
is_unapproved _ = true

unapproved-step :
    (s x : DraftStatus)
    → is_unapproved s ≡ true
    → draft_can s x ≡ true
    → (x ≡ approved) ⊎ (is_unapproved x ≡ true)
unfolding draft_can
unapproved-step s x h k = ground arith

-- Whatever path takes an unapproved draft to `sent`, it passes through `approved`.
pub sent_needs_approval :
    (s : DraftStatus) (xs : List DraftStatus)
    → is_unapproved s ≡ true
    → Trail draft_can s xs DraftStatus.sent
    → includes draft_eq xs approved ≡ true
sent_needs_approval s [] h e = ground arith
sent_needs_approval s (x ∷ xs) h (k, t) = elim (unapproved-step s x h k) [
  | inl e ↦ rw e
  | inr u ↦ ground (arith, sent_needs_approval x xs u t)
]

-- Final draft statuses: nothing ever moves the row again.
abbrev pub is_final : DraftStatus → Bool
is_final DraftStatus.sent = true
is_final rejected = true
is_final superseded = true
is_final expired = true
is_final _ = false

final-stuck : (s x : DraftStatus) → is_final s ≡ true → draft_can s x ≡ true → ⊥
unfolding draft_can
final-stuck s x h k = ground arith

-- A draft in a final status (sent, rejected, superseded, expired) takes no other status ever again.
pub draft_final_stays :
    (s : DraftStatus) (xs : List DraftStatus) (t : DraftStatus)
    → is_final s ≡ true
    → Trail draft_can s xs t
    → (xs ≡ []) × (t ≡ s)
draft_final_stays s [] t f e = (refl, sym e)
draft_final_stays s (x ∷ xs) t f (k, r) = absurd (final-stuck s x f k)

-- A draft in any other status can still be expired, so that no row waits in a status that only a
-- send could leave.
pub draft_expirable : (s : DraftStatus) → is_final s ≡ false → Reaches draft_can s expired
unfolding draft_can
draft_expirable DraftStatus.sent h = absurd (cc)
draft_expirable rejected h = absurd (cc)
draft_expirable superseded h = absurd (cc)
draft_expirable expired h = absurd (cc)
draft_expirable pending h = (expired ∷ [], (refl, refl))
draft_expirable DraftStatus.held h = (expired ∷ [], (refl, refl))
draft_expirable approved h = (DraftStatus.held ∷ expired ∷ [], (refl, (refl, refl)))
draft_expirable sending h = (DraftStatus.held ∷ expired ∷ [], (refl, (refl, refl)))
draft_expirable DraftStatus.failed h = (pending ∷ expired ∷ [], (refl, (refl, refl)))

outbound-delivers : (s : OutboundSendStatus) → Reaches outbound_can s OutboundSendStatus.sent
unfolding outbound_can
outbound-delivers OutboundSendStatus.sent = ([], refl)
outbound-delivers claimed = (OutboundSendStatus.sent ∷ [], (refl, refl))
outbound-delivers queued = (claimed ∷ OutboundSendStatus.sent ∷ [], (refl, (refl, refl)))
outbound-delivers _ =
    (queued ∷ claimed ∷ OutboundSendStatus.sent ∷ [], (refl, (refl, (refl, refl))))

-- An outbound send that has been sent stays sent, every other can still be delivered, and the step
-- that delivers it leaves from `claimed` alone.
pub outbound-sent_via_claimed :
    (s : OutboundSendStatus)
    → ((outbound_can s OutboundSendStatus.sent ≡ true) ↔ (s ≡ claimed))
      × (outbound_can OutboundSendStatus.sent s ≡ false)
      × Reaches outbound_can s OutboundSendStatus.sent
unfolding outbound_can
outbound-sent_via_claimed s = (ground arith, ground arith, outbound-delivers s)
