-- ===== src/Worker/Outcomes/Finish.antt =====
-- apps/worker/src/drafting/outcomes.ts: the finish watermarks against the stuck branch of the
-- claim.
use ai_email_support_agent.Base.{
  updated, ℕ, Bool, true, false, Option, none, some, List, ltb, leb, ◌⊎◌, inl, inr, ◌≡◌, refl,
  arith, Bool-cases, Option-cases,
}
use ai_email_support_agent.Core.Transitions.{awaiting_review, auto_sending}
use ai_email_support_agent.Db.Tables.{
  DedupeKey, has_key, NeedsOwnerReason, Ticket, Tables, find_ticket, update_ticket, always, audit,
}
use ai_email_support_agent.Db.Tables.Rows.{find_ticket-update}
use ai_email_support_agent.Db.Escalations.{escalate_ticket, escalated_row}
use ai_email_support_agent.Db.Escalations.Guarded.{escalate_ticket-find}
use ai_email_support_agent.Db.Drafts.{count_live}
use ai_email_support_agent.Worker.Claim.{stuck, finish_row, stamp_finished}
use ai_email_support_agent.Worker.Outcomes.{
  Store, OutcomeContext, DraftLanding, DraftRowInput, LandingError, review, escalate, auto,
  run_escalation, finalize, apply_escalate_outcome, apply_no_reply_outcome, audit_lost_escalation,
  note_no_reply, clear_run_stamp, unseen_guard,
}
use ai_email_support_agent.Worker.Outcomes.Landing.{
  is_triaged, set_status, take_ticket, insert_draft, announce, push_draft, close, and_then,
  apply_draft_outcome, Landed, record_lost_race,
}
use ai_email_support_agent.Worker.Outcomes.Slot.{retire_live-tickets}

-- Whether the stuck branch would claim the row at a time.
abbrev pub stuck_row : Option Ticket → ℕ → Bool
stuck_row none now = false
stuck_row (some t) now = stuck t now

-- Whether the row's claim, if it has one, is not after a time.
abbrev pub claimed_by : Option Ticket → ℕ → Bool
claimed_by none finished = true
claimed_by (some t) finished = elim t.last_agent_run_at [
  | none ↦ true
  | some run ↦ leb run finished
]

updated-claimed_by :
    (guard : Ticket → Bool) (f : Ticket → Ticket) (o : Option Ticket) (finished : ℕ)
    → ((t : Ticket) → claimed_by (some t) finished ≡ true → claimed_by (some (f t)) finished ≡ true)
    → claimed_by o finished ≡ true
    → claimed_by (updated guard f o) finished ≡ true
updated-claimed_by guard f none finished k h = refl
updated-claimed_by guard f (some t) finished k h = elim (Bool-cases (guard t)) [
  | inl pass ↦ rw pass (k t h)
  | inr stop ↦ rw stop h
]

finish_row-stuck :
    (snapshot : Option ℕ) (finished now : ℕ) (t : Ticket)
    → claimed_by (some t) finished ≡ true
    → stuck (finish_row snapshot finished t) now ≡ false
unfolding finish_row
finish_row-stuck snapshot finished now t h = ground arith

clear_run_stamp_id : (t : Ticket) → (clear_run_stamp t).id ≡ t.id
unfolding clear_run_stamp
clear_run_stamp_id t = refl

finish_row_id :
    (snapshot : Option ℕ) (finished : ℕ) (t : Ticket) → (finish_row snapshot finished t).id ≡ t.id
unfolding finish_row
finish_row_id snapshot finished t = refl

finished-stuck :
    (snapshot : Option ℕ) (finished now : ℕ) (o : Option Ticket)
    → claimed_by o finished ≡ true
    → stuck_row (updated always (finish_row snapshot finished) o) now ≡ false
finished-stuck snapshot finished now none h = refl
finished-stuck snapshot finished now (some t) h = finish_row-stuck snapshot finished now t h

push_draft-tickets :
    (key : DedupeKey) (k draft : ℕ) (t : Tables) → (push_draft key k draft t).1.tickets ≡ t.tickets
unfolding push_draft
push_draft-tickets key k draft t = elim (Bool-cases (has_key key t.notifications)) [
  | inl old ↦ rw old refl
  | inr new ↦ rw new refl
]

-- What holds of a result holds of its value, if it has one.
abbrev pub Holds {ℓ κ} : {A : Type ℓ} → (A → Type κ) → LandingError ⊎ A → Type κ
Holds P (inl e) = Unit
Holds P (inr a) = P a

and_then-Holds {ℓ κ} :
    {A : Type ℓ} {B : Type ℓ} (P : A → Type κ) (Q : B → Type κ) (x : LandingError ⊎ A)
    (f : A → LandingError ⊎ B)
    → Holds P x
    → ((a : A) → P a → Holds Q (f a))
    → Holds Q (and_then x f)
unfolding and_then
and_then-Holds P Q (inl e) f h k = tt
and_then-Holds P Q (inr a) f h k = k a h

module _ (ctx : OutcomeContext) where
  -- The ticket's claim is no later than the run's finish.
  unfoldable pub Claimed : List Ticket → Type 0
  Claimed ts = claimed_by (find_ticket ctx.ticket_id ts) ctx.finished_at ≡ true

  -- The stuck branch never claims the ticket again.
  unfoldable pub Settled : Store → Type 0
  Settled s = (now : ℕ) → stuck_row (find_ticket ctx.ticket_id s.tables.tickets) now ≡ false

  finalize-Settled : (s : Store) → Claimed s.tables.tickets → Settled (finalize ctx s)
  unfolding finalize stamp_finished Claimed Settled
  finalize-Settled s h now =
      rw
        (find_ticket-update always (finish_row ctx.thread_snapshot_at ctx.finished_at)
          (finish_row_id ctx.thread_snapshot_at ctx.finished_at) ctx.ticket_id s.tables.tickets)
        (finished-stuck ctx.thread_snapshot_at ctx.finished_at now
          (find_ticket ctx.ticket_id s.tables.tickets) h)

  update-Claimed :
      (guard : Ticket → Bool) (f : Ticket → Ticket) (ts : List Ticket)
      → ((t : Ticket) → (f t).id ≡ t.id)
      → ((t : Ticket)
          → claimed_by (some t) ctx.finished_at ≡ true
          → claimed_by (some (f t)) ctx.finished_at ≡ true)
      → Claimed ts
      → Claimed (update_ticket ctx.ticket_id guard f ts).0
  unfolding Claimed
  update-Claimed guard f ts keeps k h =
      rw (find_ticket-update guard f keeps ctx.ticket_id ts)
        (updated-claimed_by guard f (find_ticket ctx.ticket_id ts) ctx.finished_at k h)

  escalate-Claimed :
      (reason : NeedsOwnerReason) (quiet : Bool) (draft : Option ℕ) (t : Tables)
      → Claimed t.tickets
      → Claimed (escalate_ticket (run_escalation ctx reason quiet draft) t).1.tickets
  unfolding Claimed run_escalation escalated_row
  escalate-Claimed reason quiet draft t h =
      rw (escalate_ticket-find (run_escalation ctx reason quiet draft) t)
        (updated-claimed_by _ _ (find_ticket ctx.ticket_id t.tickets) ctx.finished_at (λ u e. e) h)

  escalate_outcome-Settled :
      (s : Store) → Claimed s.tables.tickets → Settled (apply_escalate_outcome ctx s).1
  unfolding apply_escalate_outcome audit_lost_escalation audit
  escalate_outcome-Settled s h =
      elim (Bool-cases
        (escalate_ticket (run_escalation ctx NeedsOwnerReason.agent_escalated false none)
          s.tables).0.escalated) [
            | inl on ↦ rw on (
                finalize-Settled _
                  (escalate-Claimed NeedsOwnerReason.agent_escalated false none s.tables h))
            | inr off ↦ rw off (
                finalize-Settled _
                  (escalate-Claimed NeedsOwnerReason.agent_escalated false none s.tables h))
          ]

  clear-claimed_by :
      (finished : ℕ) (t : Ticket) → claimed_by (some (clear_run_stamp t)) finished ≡ true
  unfolding clear_run_stamp
  clear-claimed_by finished t = refl

  no_reply-Settled :
      (pending : Bool) (s : Store)
      → Claimed s.tables.tickets
      → Settled (apply_no_reply_outcome ctx pending s).1
  unfolding apply_no_reply_outcome note_no_reply audit
  no_reply-Settled true s h =
      finalize-Settled _
        (escalate-Claimed NeedsOwnerReason.redraft_unfulfilled false none s.tables h)
  no_reply-Settled false s h = finalize-Settled _ (
      update-Claimed (unseen_guard ctx.thread_snapshot_at) clear_run_stamp s.tables.tickets
        clear_run_stamp_id (λ u e. clear-claimed_by ctx.finished_at u) h)

  lost_race-Settled :
      (error : LandingError) (s : Store)
      → Claimed s.tables.tickets
      → Settled (record_lost_race ctx error s)
  unfolding record_lost_race audit
  lost_race-Settled error s h = finalize-Settled _ h

  -- After a run that asked for a human, that found nothing to answer, or that lost its race, the stuck
  -- branch never takes the ticket again, provided that its claim was no later than the run's finish.
  pub no_draft-Settled :
      (owner_feedback_pending : Bool) (error : LandingError) (s : Store)
      → Claimed s.tables.tickets
      → Settled (apply_escalate_outcome ctx s).1
        × Settled (apply_no_reply_outcome ctx owner_feedback_pending s).1
        × Settled (record_lost_race ctx error s)
  no_draft-Settled owner_feedback_pending error s h = (
    escalate_outcome-Settled s h,
    no_reply-Settled owner_feedback_pending s h,
    lost_race-Settled error s h,
  )

  take_ticket-Claimed :
      (landing : DraftLanding) (t : Tables)
      → Claimed t.tickets
      → Holds (λ t'. Claimed t'.tickets) (take_ticket ctx landing t)
  unfolding take_ticket set_status
  take_ticket-Claimed review t h =
      elim (Bool-cases
        (update_ticket ctx.ticket_id is_triaged (set_status awaiting_review) t.tickets).1) [
          | inl hit ↦ rw hit (
              update-Claimed is_triaged (set_status awaiting_review) t.tickets (λ u. refl)
                (λ u e. e) h)
          | inr miss ↦ rw miss tt
        ]
  take_ticket-Claimed (auto send_after push) t h =
      elim (Bool-cases
        (update_ticket ctx.ticket_id is_triaged (set_status auto_sending) t.tickets).1) [
          | inl hit ↦ rw hit (
              update-Claimed is_triaged (set_status auto_sending) t.tickets (λ u. refl) (λ u e. e)
                h)
          | inr miss ↦ rw miss tt
        ]
  take_ticket-Claimed (escalate reason quiet) t h =
      elim (Option-cases (find_ticket ctx.ticket_id t.tickets)) [
        | inl gone ↦ rw gone tt
        | inr (row, here) ↦ elim (Bool-cases (is_triaged row)) [
          | inl still ↦ rw (here, still) h
          | inr moved ↦ rw (here, moved) tt
        ]
      ]

  insert_draft-Claimed :
      (landing : DraftLanding) (row : DraftRowInput) (s : Store)
      → Claimed s.tables.tickets
      → Holds (λ r. Claimed r.1.tables.tickets) (insert_draft ctx landing row s)
  unfolding insert_draft
  insert_draft-Claimed landing row s h =
      elim (Bool-cases (ltb 0 (count_live ctx.ticket_id s.drafts))) [
        | inl taken ↦ rw taken tt
        | inr free ↦ rw free h
      ]

  announce-Claimed :
      (landing : DraftLanding) (draft : ℕ) (s : Store)
      → Claimed s.tables.tickets
      → Holds (λ r. Claimed r.1.tables.tickets) (announce ctx landing draft s)
  unfolding announce
  announce-Claimed review draft s h = rw push_draft-tickets h
  announce-Claimed (auto send_after push) draft s h = elim (Bool-cases push) [
    | inl on ↦ rw (on, push_draft-tickets) h
    | inr off ↦ rw off h
  ]
  announce-Claimed (escalate reason quiet) draft s h =
      elim (Bool-cases
        (escalate_ticket (run_escalation ctx reason quiet (some draft)) s.tables).0.escalated) [
          | inl on ↦ rw on (escalate-Claimed reason quiet (some draft) s.tables h)
          | inr off ↦ rw off tt
        ]

  draft_outcome-Settled :
      (landing : DraftLanding) (row : DraftRowInput) (s : Store)
      → Claimed s.tables.tickets
      → Holds (λ r. Settled r.1) (apply_draft_outcome ctx landing row s)
  unfolding apply_draft_outcome close audit
  draft_outcome-Settled landing row s h =
      and_then-Holds (λ t. Claimed t.tickets) (λ r. Settled r.1) (take_ticket ctx landing s.tables)
        _ (take_ticket-Claimed landing s.tables h)
        (λ t ht.
          and_then-Holds (λ r. Claimed r.1.tables.tickets) (λ r. Settled r.1)
            (insert_draft ctx landing row _) _
            (insert_draft-Claimed landing row _ (rw (retire_live-tickets ctx _) ht))
            (λ inserted hi.
              and_then-Holds (λ r. Claimed r.1.tables.tickets) (λ r. Settled r.1)
                (announce ctx landing _ _) _ (announce-Claimed landing _ _ hi)
                (λ landed ha. finalize-Settled _ ha)))

  -- After a landing that stored a draft the stuck branch never takes the ticket again, provided that its
  -- claim was no later than the run's finish.
  pub apply_draft_outcome-Settled :
      (landing : DraftLanding) (row : DraftRowInput) (s s' : Store) (l : Landed)
      → Claimed s.tables.tickets
      → apply_draft_outcome ctx landing row s ≡ inr (l, s')
      → Settled s'
  apply_draft_outcome-Settled landing row s s' l h e =
      rw e at (draft_outcome-Settled landing row s h)
