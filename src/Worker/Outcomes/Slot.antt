-- ===== src/Worker/Outcomes/Slot.antt =====
-- apps/worker/src/drafting/outcomes.ts: the live drafts of a ticket across a landing.
use ai_email_support_agent.Base.{
  hits, ℕ, suc, ◌+◌, Bool, true, false, Option, some, List, [], ◌∷◌, ◌++◌, ◌==◌, ◌&&◌,
  if◌then◌else◌, ◌⊎◌, inl, inr, ◌≡◌, refl, ◌∙◌, arith, Bool-cases, Option-cases, ==_refl,
}
use ai_email_support_agent.Core.Transitions.{sending, draft_eq, awaiting_review, auto_sending}
use ai_email_support_agent.Db.Tables.{NeedsOwnerReason, Ticket, Tables, find_ticket, audit}
use ai_email_support_agent.Db.Tables.Rows.{update_ticket-hits}
use ai_email_support_agent.Db.Escalations.{escalate_ticket, from_guard}
use ai_email_support_agent.Db.Escalations.Guarded.{escalate_ticket-escalated}
use ai_email_support_agent.Db.Drafts.{Draft, live_on, count_live}
use ai_email_support_agent.Worker.Outcomes.{
  Store, OutcomeContext, DraftLanding, DraftRowInput, LandingError, review, escalate, auto,
  propose_lost_race, escalate_lost_race, retire_all, retire_one, new_draft, run_escalation,
  finalize, settle_run,
}
use ai_email_support_agent.Worker.Outcomes.Landing.{
  is_triaged, set_status, take_ticket, insert_draft, announce, close, retire_live,
  apply_draft_outcome, Landed,
}

-- A draft of the ticket whose reply is in flight.
unfoldable pub in_flight : ℕ → Draft → Bool
in_flight k d = d.ticket_id == k && draft_eq d.status sending

unfoldable pub count_in_flight : ℕ → List Draft → ℕ
count_in_flight k [] = 0
count_in_flight k (d ∷ ds) =
    let rest = count_in_flight k ds in if in_flight k d then suc rest else rest

module _ (ctx : OutcomeContext) where
  retire_one-own :
      (d : Draft) (s : Store)
      → live_on ctx.ticket_id (retire_one ctx d s).0 ≡ in_flight ctx.ticket_id d
  unfolding live_on in_flight retire_one
  retire_one-own d s = ground arith

  retire_one-other :
      (j : ℕ) (d : Draft) (s : Store)
      → (j == ctx.ticket_id) ≡ false
      → live_on j (retire_one ctx d s).0 ≡ live_on j d
  unfolding live_on retire_one
  retire_one-other j d s h = ground arith

  retire_one-tickets :
      (d : Draft) (s : Store) → (retire_one ctx d s).1.tables.tickets ≡ s.tables.tickets
  unfolding retire_one audit
  retire_one-tickets d s = ground arith

  -- Only replies in flight are left of the ticket's live drafts.
  retire_all-own :
      (ds : List Draft) (s : Store)
      → count_live ctx.ticket_id (retire_all ctx ds s).0 ≡ count_in_flight ctx.ticket_id ds
  unfolding count_live count_in_flight retire_all
  retire_all-own [] s = refl
  retire_all-own (d ∷ ds) s = rw (retire_one-own d s, retire_all-own ds (retire_one ctx d s).1) refl

  retire_all-other :
      (j : ℕ) (ds : List Draft) (s : Store)
      → (j == ctx.ticket_id) ≡ false
      → count_live j (retire_all ctx ds s).0 ≡ count_live j ds
  unfolding count_live retire_all
  retire_all-other j [] s h = refl
  retire_all-other j (d ∷ ds) s h =
      rw (retire_one-other j d s h, retire_all-other j ds (retire_one ctx d s).1 h) refl

  retire_all-tickets :
      (ds : List Draft) (s : Store) → (retire_all ctx ds s).1.tables.tickets ≡ s.tables.tickets
  unfolding retire_all
  retire_all-tickets [] s = refl
  retire_all-tickets (d ∷ ds) s =
      retire_all-tickets ds (retire_one ctx d s).1 ∙ retire_one-tickets d s

count_live-snoc :
    (j : ℕ) (ds : List Draft) (d : Draft)
    → count_live j (ds ++ d ∷ []) ≡ count_live j ds + (if live_on j d then 1 else 0)
unfolding count_live
count_live-snoc j [] d = ground arith
count_live-snoc j (x ∷ ds) d = ground (arith, count_live-snoc j ds d)

-- The race that a landing loses when an owner took the ticket first.
abbrev pub race_of : DraftLanding → LandingError
race_of (escalate reason quiet) = escalate_lost_race
race_of _ = propose_lost_race

abbrev pub ticket_of : OutcomeContext → Store → Option Ticket
ticket_of ctx s = find_ticket ctx.ticket_id s.tables.tickets

take_ticket_miss :
    (ctx : OutcomeContext) (landing : DraftLanding) (t : Tables)
    → hits is_triaged (find_ticket ctx.ticket_id t.tickets) ≡ false
    → take_ticket ctx landing t ≡ inl (race_of landing)
unfolding take_ticket
take_ticket_miss ctx review t h =
    rw (update_ticket-hits is_triaged (set_status awaiting_review) ctx.ticket_id t.tickets, h) refl
take_ticket_miss ctx (auto send_after push) t h =
    rw (update_ticket-hits is_triaged (set_status auto_sending) ctx.ticket_id t.tickets, h) refl
take_ticket_miss ctx (escalate reason quiet) t h =
    elim (Option-cases (find_ticket ctx.ticket_id t.tickets)) [
      | inl gone ↦ rw gone refl
      | inr (row, here) ↦ let h' : is_triaged row ≡ false = rw here at h in rw (here, h') refl
    ]

drafts_of : LandingError ⊎ (Landed × Store) → List Draft → List Draft
drafts_of (inl e) ds = ds
drafts_of (inr (l, s)) ds = s.drafts

announce-drafts :
    (ctx : OutcomeContext) (landing : DraftLanding) (draft : ℕ) (s : Store)
    → drafts_of (announce ctx landing draft s) s.drafts ≡ s.drafts
unfolding announce drafts_of
announce-drafts ctx review draft s = refl
announce-drafts ctx (auto send_after push) draft s = elim (Bool-cases push) [
  | inl on ↦ rw on refl
  | inr off ↦ rw off refl
]
announce-drafts ctx (escalate reason quiet) draft s =
    elim (Bool-cases
      (escalate_ticket (run_escalation ctx reason quiet (some draft)) s.tables).0.escalated) [
        | inl yes_escalated ↦ rw yes_escalated refl
        | inr lost ↦ rw lost refl
      ]

announced-drafts :
    (ctx : OutcomeContext) (landing : DraftLanding) (draft : ℕ) (s : Store) (l : Landed)
    (s' : Store)
    → announce ctx landing draft s ≡ inr (l, s')
    → s'.drafts ≡ s.drafts
unfolding drafts_of
announced-drafts ctx landing draft s l s' e = rw e at (announce-drafts ctx landing draft s)

-- Whether the landing still holds its ticket when it announces the draft.
abbrev Held : OutcomeContext → DraftLanding → List Ticket → Type 0
Held ctx (escalate reason quiet) ts = hits is_triaged (find_ticket ctx.ticket_id ts) ≡ true
Held ctx _ ts = Unit

escalation_hits :
    (ctx : OutcomeContext) (reason : NeedsOwnerReason) (quiet : Bool) (draft : Option ℕ)
    (t : Tables)
    → (escalate_ticket (run_escalation ctx reason quiet draft) t).0.escalated
      ≡ hits is_triaged (find_ticket ctx.ticket_id t.tickets)
unfolding run_escalation from_guard is_triaged
escalation_hits ctx reason quiet draft t =
    escalate_ticket-escalated (run_escalation ctx reason quiet draft) t

announce-lands :
    (ctx : OutcomeContext) (landing : DraftLanding) (draft : ℕ) (s : Store)
    → Held ctx landing s.tables.tickets
    → (l : Landed) × (s' : Store) × (announce ctx landing draft s ≡ inr (l, s'))
unfolding announce
announce-lands ctx review draft s h = (_, _, refl)
announce-lands ctx (auto send_after push) draft s h = elim (Bool-cases push) [
  | inl on ↦ rw on (_, _, refl)
  | inr off ↦ rw off (_, _, refl)
]
announce-lands ctx (escalate reason quiet) draft s h =
    rw (escalation_hits ctx reason quiet (some draft) s.tables, h) (_, _, refl)

take_ticket_hit :
    (ctx : OutcomeContext) (landing : DraftLanding) (t : Tables)
    → hits is_triaged (find_ticket ctx.ticket_id t.tickets) ≡ true
    → (t' : Tables) × (take_ticket ctx landing t ≡ inr t') × Held ctx landing t'.tickets
unfolding take_ticket
take_ticket_hit ctx review t h =
    rw (update_ticket-hits is_triaged (set_status awaiting_review) ctx.ticket_id t.tickets, h)
      (_, refl, tt)
take_ticket_hit ctx (auto send_after push) t h =
    rw (update_ticket-hits is_triaged (set_status auto_sending) ctx.ticket_id t.tickets, h)
      (_, refl, tt)
take_ticket_hit ctx (escalate reason quiet) t h =
    elim (Option-cases (find_ticket ctx.ticket_id t.tickets)) [
      | inl gone ↦ let h' : false ≡ true = rw gone at h in absurd (cc)
      | inr (row, here) ↦
          let h' : is_triaged row ≡ true = rw here at h in (t, rw (here, h') refl, h)
    ]

pub retire_live-tickets :
    (ctx : OutcomeContext) (s : Store) → (retire_live ctx s).tables.tickets ≡ s.tables.tickets
unfolding retire_live
retire_live-tickets ctx s = retire_all-tickets ctx s.drafts s

retire_live-own :
    (ctx : OutcomeContext) (s : Store)
    → count_live ctx.ticket_id (retire_live ctx s).drafts ≡ count_in_flight ctx.ticket_id s.drafts
unfolding retire_live
retire_live-own ctx s = retire_all-own ctx s.drafts s

retire_live-other :
    (ctx : OutcomeContext) (j : ℕ) (s : Store)
    → (j == ctx.ticket_id) ≡ false
    → count_live j (retire_live ctx s).drafts ≡ count_live j s.drafts
unfolding retire_live
retire_live-other ctx j s h = retire_all-other ctx j s.drafts s h

new_draft_own :
    (ctx : OutcomeContext) (landing : DraftLanding) (row : DraftRowInput) (id : ℕ) (ds : List Draft)
    → live_on ctx.ticket_id (new_draft ctx landing row id ds) ≡ true
unfolding live_on new_draft
new_draft_own ctx landing row id ds = ground (arith, ==_refl ctx.ticket_id)

new_draft_other :
    (ctx : OutcomeContext) (j : ℕ) (landing : DraftLanding) (row : DraftRowInput) (id : ℕ)
    (ds : List Draft)
    → (j == ctx.ticket_id) ≡ false
    → live_on j (new_draft ctx landing row id ds) ≡ false
unfolding live_on new_draft
new_draft_other ctx j landing row id ds h = ground arith

-- The slot that is free takes the draft, and holds it then.
insert_draft_free :
    (ctx : OutcomeContext) (landing : DraftLanding) (row : DraftRowInput) (s : Store)
    → count_live ctx.ticket_id s.drafts ≡ 0
    → (id : ℕ) × (s' : Store) × (insert_draft ctx landing row s ≡ inr (id, s'))
      × (count_live ctx.ticket_id s'.drafts ≡ 1)
      × (s'.tables.tickets ≡ s.tables.tickets)
unfolding insert_draft
insert_draft_free ctx landing row s h =
    rw h (_, _, refl, rw (count_live-snoc, h, new_draft_own) refl, refl)

-- A landing on a ticket that is still `triaged`, with no reply of it in flight, always lands: the draft is
-- stored, and it is then the one live draft of the ticket, whatever drafts were live before.
pub apply_draft_outcome_lands :
    (ctx : OutcomeContext) (landing : DraftLanding) (row : DraftRowInput) (s : Store)
    → hits is_triaged (ticket_of ctx s) ≡ true
    → count_in_flight ctx.ticket_id s.drafts ≡ 0
    → (l : Landed) × (s' : Store) × (apply_draft_outcome ctx landing row s ≡ inr (l, s'))
      × (count_live ctx.ticket_id s'.drafts ≡ 1)
unfolding apply_draft_outcome close finalize settle_run
apply_draft_outcome_lands ctx landing row s h free =
    let (t, taken, held) = take_ticket_hit ctx landing s.tables h in
    let s₁ : Store = record s { tables = t } in
    let (id, s₂, inserted, one, kept) =
      insert_draft_free ctx landing row (retire_live ctx s₁) (retire_live-own ctx s₁ ∙ free) in
    let (l, s₃, announced) =
      announce-lands ctx landing id s₂ (rw (kept, retire_live-tickets ctx s₁) held) in
    (
      l,
      (close ctx (l, s₃)).1,
      rw (taken, inserted, announced) refl,
      rw (announced-drafts ctx landing id s₂ l s₃ announced) one,
    )
