-- ===== src/Api/Drafts/Live.antt =====
-- apps/api/src/drafts/service.ts beside the index of packages/db/migrations/0011_draft_hardening.sql:
-- the one live draft of a ticket.
use ai_email_support_agent.Base.{
  ℕ, suc, ◌≤◌, ◌≡◌, refl, ap, ◌∙◌, Bool, true, false, not, some, List, [], ◌∷◌, inl, inr, ◌==◌,
  ◌&&◌, ◌||◌, if◌then◌else◌, arith, Bool-cases, Option-cases, find_row, find_row-id, update_row,
  update_row-hits, All, ==_iff,
}
use ai_email_support_agent.Core.Transitions.{queued, claimed, DraftStatus, OutboundSendStatus}
use ai_email_support_agent.Db.Tables.{find_ticket, update_ticket}
use ai_email_support_agent.Db.Drafts.{Draft, OutboundSend, SendError, live_on, count_live}
use ai_email_support_agent.Db.Sends.{World, draft_id, update_draft, audit_in}
use ai_email_support_agent.Worker.Send.Land.{draft_in, move_draft, update_ticket_in}
use ai_email_support_agent.Worker.Send.{is_status}
use ai_email_support_agent.Api.Drafts.{Desk, AnswerHolds}
use ai_email_support_agent.Api.Drafts.Decide.{
  has_rival, walk_back_ticket, resume_writes, resume_found, resume_draft, owners_to_bring_back,
}
use ai_email_support_agent.Api.Drafts.Resolve.{
  retirement_of, is_retirable, find_retirable, for_draft, hold_for_resolve, retire_draft,
  retire_found, resolve_ticket, is_resolvable, resolved_row,
}

-- How many rows have an id: the primary key allows one.
abbrev pub count_id : ℕ → List Draft → ℕ
count_id k [] = 0
count_id k (d ∷ ds) = let rest = count_id k ds in if d.id == k then suc rest else rest

-- With no rival, every live draft of the ticket is the draft itself.
rival-count :
    (ticket self : ℕ) (ds : List Draft)
    → has_rival ticket self ds ≡ false
    → count_live ticket ds ≤ count_id self ds
unfolding has_rival count_live live_on
rival-count ticket self [] h = omega arith
rival-count ticket self (x ∷ xs) h = ground (arith, rival-count ticket self xs)

moved-count :
    (ticket self : ℕ) (guard : Draft → Bool) (set : Draft → Draft) (ds : List Draft)
    → has_rival ticket self ds ≡ false
    → count_live ticket (update_row draft_id self guard set ds).0 ≤ count_id self ds
unfolding has_rival count_live live_on update_row
moved-count ticket self guard set [] h = omega arith
moved-count ticket self guard set (x ∷ xs) h =
    ground (arith, rival-count ticket self xs, moved-count ticket self guard set xs)

-- A move of another ticket's draft.
other-count :
    (k self : ℕ) (guard : Draft → Bool) (status : DraftStatus) (draft : Draft) (ds : List Draft)
    → find_row draft_id self ds ≡ some draft
    → (draft.ticket_id == k) ≡ false
    → count_live k (update_row draft_id self guard (move_draft status) ds).0 ≤ count_live k ds
unfolding count_live live_on update_row find_row
other-count k self guard status draft [] f h = omega arith
other-count k self guard status draft (x ∷ xs) f h = elim (Bool-cases (x.id == self)) [
  | inl here ↦
      let f' : some x ≡ some draft = rw here at f in
      let same_row : x ≡ draft = cc in
      let n : (x.ticket_id == k) ≡ false = rw same_row h in rw here (ground (arith, n))
  | inr there ↦
      let ih = other-count k self guard status draft xs (rw there at f) h in
      rw there (ground (arith, ih))
]

walk_back_ticket-drafts : (draft : Draft) (w : World) → (walk_back_ticket draft w).drafts ≡ w.drafts
unfolding walk_back_ticket update_ticket_in
walk_back_ticket-drafts draft w = elim (Bool-cases (draft_in DraftStatus.failed draft)) [
  | inl h ↦ rw h refl
  | inr h ↦ rw h refl
]

resume_writes-drafts :
    (draft : Draft) (w : World)
    → (resume_writes draft w).drafts
      ≡ (update_row draft_id draft.id
          (draft_in draft.status)
          (move_draft DraftStatus.pending)
          w.drafts).0
unfolding resume_writes audit_in update_draft
resume_writes-drafts draft w = walk_back_ticket-drafts draft _

resumed-count :
    (k : ℕ) (draft : Draft) (ds : List Draft)
    → find_row draft_id draft.id ds ≡ some draft
    → count_id draft.id ds ≤ 1
    → count_live k ds ≤ 1
    → has_rival draft.ticket_id draft.id ds ≡ false
    → count_live k
        (update_row draft_id draft.id (draft_in draft.status) (move_draft DraftStatus.pending) ds).0
      ≤ 1
resumed-count k draft ds f u l r = elim (Bool-cases (draft.ticket_id == k)) [
  | inl own ↦
      let same_ticket : draft.ticket_id ≡ k = (==_iff draft.ticket_id k).0 own in
      let c =
        moved-count draft.ticket_id draft.id (draft_in draft.status)
          (move_draft DraftStatus.pending) ds r in
      rw (← same_ticket) (omega (arith, c, u))
  | inr other ↦
      let c = other-count k draft.id (draft_in draft.status) DraftStatus.pending draft ds f other in
      omega (arith, c, l)
]

resume_found-one_live :
    (k : ℕ) (row : Draft) (d : Desk)
    → find_row draft_id row.id d.world.drafts ≡ some row
    → count_id row.id d.world.drafts ≤ 1
    → count_live k d.world.drafts ≤ 1
    → AnswerHolds (λ _ d'. count_live k d'.world.drafts ≤ 1) (resume_found (some row) d)
unfolding resume_found
resume_found-one_live k row d f u l =
    elim (Bool-cases (draft_in DraftStatus.held row || draft_in DraftStatus.failed row)) [
      | inr other ↦ rw other tt
      | inl resumable ↦ elim (Bool-cases (has_rival row.ticket_id row.id d.world.drafts)) [
        | inl rival ↦ rw (resumable, rival) tt
        | inr alone ↦
            elim (Bool-cases (
              draft_in DraftStatus.failed row
              && not (owners_to_bring_back (find_ticket row.ticket_id d.world.tables.tickets)))) [
                | inl leftover ↦ rw (resumable, alone, leftover) tt
                | inr owners ↦
                    rw (resumable, alone, owners)
                      (rw resume_writes-drafts (resumed-count k row d.world.drafts f u l alone))
              ]
      ]
    ]

-- "Back to review" moves a failed draft into the index of live drafts: where its id is a key and no
-- ticket has two live drafts, no ticket has two after any answer.
pub resume_draft-one_live :
    (k draft : ℕ) (d : Desk)
    → count_id draft d.world.drafts ≤ 1
    → count_live k d.world.drafts ≤ 1
    → AnswerHolds (λ _ d'. count_live k d'.world.drafts ≤ 1) (resume_draft draft d)
unfolding resume_draft resume_found
resume_draft-one_live k draft d u l = elim (Option-cases (find_row draft_id draft d.world.drafts)) [
  | inl absent ↦ rw absent tt
  | inr (row, here) ↦
      let key : row.id ≡ draft = find_row-id draft_id draft d.world.drafts row here in
      rw here (
        resume_found-one_live k row d (ap (λ n. find_row draft_id n d.world.drafts) key ∙ here)
          (rw key u) l)
]

-- A send of the draft that a run may claim, or has claimed.
abbrev pub on_its_way : ℕ → OutboundSend → Bool
on_its_way draft s = s.draft_id == draft && (is_status queued s || is_status claimed s)

held_clear :
    (draft : ℕ) (s : OutboundSend)
    → on_its_way draft
        (record s { status = OutboundSendStatus.held; last_error = some SendError.ticket_resolved })
      ≡ false
held_clear draft s = ground arith

other-clear :
    (draft : ℕ) (s : OutboundSend) → for_draft draft s ≡ false → on_its_way draft s ≡ false
other-clear draft s h = ground arith

-- The sends of a retired draft are pulled back.
hold_for_resolve-clear :
    (draft : ℕ) (ss : List OutboundSend)
    → All (λ s. on_its_way draft s ≡ false) (hold_for_resolve draft ss)
unfolding hold_for_resolve
hold_for_resolve-clear draft [] = tt
hold_for_resolve-clear draft (s ∷ ss) = elim (Bool-cases (for_draft draft s)) [
  | inl here ↦ rw here (held_clear draft s, hold_for_resolve-clear draft ss)
  | inr other ↦ rw other (other-clear draft s other, hold_for_resolve-clear draft ss)
]

draft_in_self : (d : Draft) → draft_in d.status d ≡ true
draft_in_self d = ground arith

retire_draft-sends :
    (live : Draft) (to : DraftStatus) (w : World)
    → find_row draft_id live.id w.drafts ≡ some live
    → All (λ s. on_its_way live.id s ≡ false) (retire_draft live to w).sends
unfolding retire_draft audit_in
retire_draft-sends live to w f =
    let hit : (update_row draft_id live.id (draft_in live.status) (move_draft to) w.drafts).1
        ≡ true =
      update_row-hits draft_id (draft_in live.status) (move_draft to) live.id w.drafts
      ∙ rw f (draft_in_self live) in
    rw hit (hold_for_resolve-clear live.id w.sends)

retirable-target :
    (status : DraftStatus)
    → is_retirable status ≡ true
    → (to : DraftStatus) × (retirement_of status ≡ some to)
retirable-target DraftStatus.pending h = (DraftStatus.superseded, refl)
retirable-target DraftStatus.approved h = (DraftStatus.superseded, refl)
retirable-target DraftStatus.held h = (DraftStatus.expired, refl)
retirable-target DraftStatus.sending h = absurd (cc)
retirable-target DraftStatus.sent h = absurd (cc)
retirable-target DraftStatus.rejected h = absurd (cc)
retirable-target DraftStatus.superseded h = absurd (cc)
retirable-target DraftStatus.expired h = absurd (cc)
retirable-target DraftStatus.failed h = absurd (cc)

find_retirable-status :
    (ticket : ℕ) (ds : List Draft) (live : Draft)
    → find_retirable ticket ds ≡ some live
    → is_retirable live.status ≡ true
unfolding find_retirable
find_retirable-status ticket [] live h = absurd (cc)
find_retirable-status ticket (x ∷ xs) live h =
    elim (Bool-cases (x.ticket_id == ticket && is_retirable x.status)) [
      | inl here ↦
          let h' : some x ≡ some live = rw here at h in
          let same_row : x ≡ live = cc in
          let r : is_retirable x.status ≡ true = ground arith in rw (← same_row) r
      | inr there ↦ find_retirable-status ticket xs live (rw there at h)
    ]

retire_found-sends :
    (ticket : ℕ) (live : Draft) (w : World)
    → find_row draft_id live.id w.drafts ≡ some live
    → find_retirable ticket w.drafts ≡ some live
    → All (λ s. on_its_way live.id s ≡ false) (retire_found (some live) w).sends
unfolding retire_found
retire_found-sends ticket live w f r =
    let (to, e) = retirable-target live.status (find_retirable-status ticket w.drafts live r) in
    rw e (retire_draft-sends live to w f)

-- A ticket that is marked resolved has nothing on its way: every send of the draft that waited for it,
-- pending, approved or held, is out of the queue and out of the hands of the run that claimed it; where
-- the draft's id is a key.
pub resolve_ticket-nothing_out :
    (ticket : ℕ) (live : Draft) (w : World)
    → find_row draft_id live.id w.drafts ≡ some live
    → find_retirable ticket w.drafts ≡ some live
    → (resolve_ticket ticket w).0 ≡ true
    → All (λ s. on_its_way live.id s ≡ false) (resolve_ticket ticket w).1.sends
unfolding resolve_ticket audit_in
resolve_ticket-nothing_out ticket live w f r moved =
    elim (Bool-cases (update_ticket ticket is_resolvable resolved_row w.tables.tickets).1) [
      | inl hit ↦ rw (hit, r) (retire_found-sends ticket live _ f r)
      | inr miss ↦ let m : false ≡ true = rw miss at moved in absurd (cc)
    ]
