-- ===== src/Api/Drafts/Undo.antt =====
-- apps/api/src/drafts/service.ts: the window in which an approval can be undone.
use ai_email_support_agent.Base.{
  ℕ, ◌+◌, ◌≡◌, ◌∙◌, refl, subst, Bool, true, false, Option, none, some, List, [], ◌∷◌, ◌==◌, leb,
  arith, Bool-cases, Option-cases, hits, inl, inr, ==_refl, find_row, find_row-id, update_row,
}
use ai_email_support_agent.Core.Transitions.{queued, DraftStatus}
use ai_email_support_agent.Db.Tables.{Text, Ticket}
use ai_email_support_agent.Db.Drafts.{Draft, OutboundSend}
use ai_email_support_agent.Db.Sends.{World, draft_id, enqueue, enqueue_page, audit_in}
use ai_email_support_agent.Worker.Send.{is_status, claim_guard, Settings, Workspace}
use ai_email_support_agent.Worker.Send.Land.{draft_in}
use ai_email_support_agent.Api.Drafts.{
  ActionToken, Desk, Answer, AnswerHolds, token_id, is_unconsumed, consumed, consume_action_token,
  send_of, is_requeueable, revived, upsert_send, DraftActor, ApproveInput, Approved, demote_if,
  suggest_if, new_send, approve_tail, approve_send, approve_screened, approve_ready,
  approve_workspace, approve_viewed, approve_found, approve_draft,
}

queued-claim :
    (t : ℕ) (s : OutboundSend) → is_status queued s ≡ true → claim_guard t s ≡ leb s.send_after t
unfolding claim_guard
queued-claim t s h = ground arith

revived-claim : (t at : ℕ) (s : OutboundSend) → claim_guard t (revived at s) ≡ leb at t
unfolding claim_guard revived
revived-claim t at s = ground arith

found-revived :
    (t at draft : ℕ) (s : OutboundSend) (ss : List OutboundSend)
    → (s.draft_id == draft) ≡ true
    → hits (claim_guard t) (send_of draft (revived at s ∷ ss)) ≡ leb at t
unfolding send_of revived
found-revived t at draft s ss h = rw h (revived-claim t at s)

-- The row that the upsert returns can be claimed from the due time on.
upsert_send-due :
    (t id : ℕ) (new : OutboundSend) (sends : List OutboundSend)
    → is_status queued new ≡ true
    → (upsert_send new sends).1 ≡ some id
    → hits (claim_guard t) (send_of new.draft_id (upsert_send new sends).0) ≡ leb new.send_after t
unfolding upsert_send send_of
upsert_send-due t id new [] q h = rw (==_refl new.draft_id) (queued-claim t new q)
upsert_send-due t id new (s ∷ ss) q h = elim (Bool-cases (s.draft_id == new.draft_id)) [
  | inl here ↦ elim (Bool-cases (is_requeueable s.status)) [
    | inl free ↦ rw (here, free) (found-revived t new.send_after new.draft_id s ss here)
    | inr busy ↦ let h' : none ≡ some id = rw (here, busy) at h in absurd (cc)
  ]
  | inr there ↦ let h' = rw there at h in rw (there, there) (upsert_send-due t id new ss q h')
]

-- What an approval leaves of the ledger: the draft's send can be claimed from an instant on, only.
abbrev Due : ℕ → ℕ → ℕ → Desk → Type 0
Due t draft at d = hits (claim_guard t) (send_of draft d.world.sends) ≡ leb at t

consumed-holds :
    {A : Type 0} (P : A → Desk → Type 0) (token : Option ℕ) (now : ℕ) (d : Desk)
    (k : Desk → Answer A)
    → ((tokens : List ActionToken) → AnswerHolds P (k (record d { tokens = tokens })))
    → AnswerHolds P (consume_action_token token now d k)
unfolding consume_action_token
consumed-holds P none now d k h = h d.tokens
consumed-holds P (some token) now d k h =
    elim (Bool-cases (update_row token_id token is_unconsumed (consumed now) d.tokens).1) [
      | inl hit ↦ rw hit (h _)
      | inr miss ↦ rw miss tt
    ]

module _ (screen : Draft → Text → Option Text) (maybe_demote : Draft → World → Option ℕ × World)
    (leaves : (d : Draft) (w : World) → (maybe_demote d w).1.sends ≡ w.sends) where
  demote_if-sends :
      (b : Bool) (draft : Draft) (w : World)
      → (demote_if screen maybe_demote b draft w).1.sends ≡ w.sends
  demote_if-sends true draft w = leaves draft w
  demote_if-sends false draft w = refl

  suggest_if-sends :
      (b : Bool) (draft : ℕ) (w : World)
      → (suggest_if screen maybe_demote b draft w).sends ≡ w.sends
  unfolding enqueue
  suggest_if-sends true draft w = refl
  suggest_if-sends false draft w = refl

  enqueue_page-sends : (n : Option ℕ) (w : World) → (enqueue_page n w).sends ≡ w.sends
  unfolding enqueue
  enqueue_page-sends none w = refl
  enqueue_page-sends (some n) w = refl

  approve_tail-sends :
      (draft : Draft) (edited : Bool) (send : ℕ) (w : World)
      → (approve_tail screen maybe_demote draft edited send w).sends ≡ w.sends
  unfolding approve_tail enqueue audit_in
  approve_tail-sends draft edited send w =
      suggest_if-sends edited draft.id _ ∙ enqueue_page-sends _ _ ∙ demote_if-sends _ draft w

  approve_send-Due :
      (t : ℕ) (draft : Draft) (edited : Bool) (token : Option ℕ) (now at : ℕ) (d : Desk)
      (sends : List OutboundSend) (o : Option ℕ)
      → ((id : ℕ) → o ≡ some id → hits (claim_guard t) (send_of draft.id sends) ≡ leb at t)
      → AnswerHolds
          (λ a d'. (a.send_after ≡ at) × Due t draft.id at d')
          (approve_send screen maybe_demote draft edited token now at d (sends, o))
  unfolding approve_send
  approve_send-Due t draft edited token now at d sends none h = tt
  approve_send-Due t draft edited token now at d sends (some id) h =
      consumed-holds (λ a d'. (a.send_after ≡ at) × Due t draft.id at d') token now _ _
        λ tokens. (refl, rw (approve_tail-sends) (h id refl))

  module _ (t now : ℕ) (input : ApproveInput) (actor : DraftActor) where
    abbrev Window : ℕ → Approved → Desk → Type 0
    Window draft a d = (a.send_after ≡ now + 15000) × Due t draft (now + 15000) d

    approve_screened-Window :
        (draft : Draft) (ticket : Ticket) (agent viewed_at : ℕ) (final : Option Text) (d : Desk)
        → AnswerHolds (Window draft.id) (
            approve_screened screen maybe_demote input actor now draft ticket agent viewed_at final
              d)
    unfolding approve_screened
    approve_screened-Window draft ticket agent viewed_at none d = tt
    approve_screened-Window draft ticket agent viewed_at (some final) d =
        approve_send-Due t draft _ input.consume_token_id now _ _ _ _ λ id e.
          upsert_send-due t id (new_send screen maybe_demote draft ticket agent _ _) _ refl e

    approve_ready-Window :
        (draft : Draft) (ticket : Ticket) (viewed_at : ℕ) (ws : Workspace) (agent : Option ℕ)
        (d : Desk)
        → AnswerHolds
            (Window draft.id)
            (approve_ready screen maybe_demote input actor now draft ticket viewed_at ws agent d)
    unfolding approve_ready
    approve_ready-Window draft ticket viewed_at ws none d = elim (Bool-cases ws.kill_switch) [
      | inl k ↦ rw k tt
      | inr k ↦ rw k tt
    ]
    approve_ready-Window draft ticket viewed_at ws (some agent) d =
        elim (Bool-cases ws.kill_switch) [
          | inl k ↦ rw k tt
          | inr k ↦ elim (Bool-cases ws.agent_enabled) [
            | inl on ↦ rw (k, on) (approve_screened-Window draft ticket agent viewed_at _ d)
            | inr off ↦ rw (k, off) tt
          ]
        ]

    approve_workspace-Window :
        (draft : Draft) (ticket : Ticket) (viewed_at : ℕ) (settings : Settings)
        (ws : Option Workspace) (d : Desk)
        → AnswerHolds (Window draft.id) (
            approve_workspace screen maybe_demote input actor now draft ticket viewed_at settings ws
              d)
    unfolding approve_workspace
    approve_workspace-Window draft ticket viewed_at settings none d = tt
    approve_workspace-Window draft ticket viewed_at settings (some ws) d =
        approve_ready-Window draft ticket viewed_at ws _ d

    approve_viewed-Window :
        (draft : Draft) (settings : Settings) (viewed_at : Option ℕ) (ticket : Option Ticket)
        (d : Desk)
        → AnswerHolds
            (Window draft.id)
            (approve_viewed screen maybe_demote input actor now draft settings viewed_at ticket d)
    unfolding approve_viewed
    approve_viewed-Window draft settings none ticket d = tt
    approve_viewed-Window draft settings (some at) none d = tt
    approve_viewed-Window draft settings (some at) (some ticket) d =
        approve_workspace-Window draft ticket at settings _ d

    approve_found-Window :
        (draft : Draft) (settings : Settings) (d : Desk)
        → AnswerHolds
            (Window draft.id)
            (approve_found screen maybe_demote input actor now settings (some draft) d)
    unfolding approve_found
    approve_found-Window draft settings d = elim (Bool-cases (draft_in DraftStatus.pending draft)) [
      | inl pending ↦ rw pending (approve_viewed-Window draft settings _ _ d)
      | inr other ↦ rw other tt
    ]

    -- An approval that is answered says when its reply may go, fifteen seconds after the decision, and
    -- leaves the draft's send, new or revived, so that a claim takes it from that instant on and at no
    -- instant before; if the demotion check leaves the ledger alone.
    pub approve_draft-undo_window :
        (settings : Settings) (d : Desk)
        → AnswerHolds
            (λ a d'.
              (a.send_after ≡ now + 15000)
              × (hits (claim_guard t) (send_of input.draft_id d'.world.sends)
                  ≡ leb (now + 15000) t))
            (approve_draft screen maybe_demote input actor now settings d)
    unfolding approve_draft approve_found
    approve_draft-undo_window settings d =
        elim (Option-cases (find_row draft_id input.draft_id d.world.drafts)) [
          | inl absent ↦ rw absent tt
          | inr (draft, here) ↦
              let key : draft.id ≡ input.draft_id =
                find_row-id draft_id input.draft_id d.world.drafts draft here in
              rw here (
                subst
                  (λ n.
                    AnswerHolds (Window n)
                      (approve_found screen maybe_demote input actor now settings (some draft) d))
                  key (approve_found-Window draft settings d))
        ]
