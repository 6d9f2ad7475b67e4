-- ===== src/Worker/Send/Touched.antt =====
-- apps/worker/src/jobs/send-execute.ts: a whole run, seen from the ledger of sends.
use ai_email_support_agent.Base.{
  ℕ, ◌≡◌, refl, ◌∙◌, Bool, true, false, Option, none, some, List, ◌⊎◌, inl, inr, Bool-cases,
  Option-cases, update_row, nat_eq,
}
use ai_email_support_agent.Core.Transitions.{DraftStatus, OutboundSendStatus, claimed}
use ai_email_support_agent.Core.Billing.{Period}
use ai_email_support_agent.Db.Drafts.{OutboundSend, KillLever, SendError}
use ai_email_support_agent.Db.Tables.{Text}
use ai_email_support_agent.Db.Sends.{
  World, Message, Reply, send_id, draft_id, audit_in, update_draft,
}
use ai_email_support_agent.Worker.Send.{
  Settings, ClaimedSend, ClaimError, is_status, claim_send, claim_guard, claim_set, read_claim,
  first_kill_lever, commit, returning,
}
use ai_email_support_agent.Worker.Send.Land.{
  Landing, move_draft, not_sent, released, set_send_status, draft_in, awaits_delivery, land_held,
  land_terminal, land_stale, collapse_guard, collapse_set, collapse_claim_horizon,
}
use ai_email_support_agent.Worker.Send.Complete.{
  CompleteSendInput, ModelSettings, complete_set, complete_send,
}
use ai_email_support_agent.Worker.Send.Run.{
  Credential, Scan, SendAnswer, Answers, Ending, flip_guard, unchanged, store_draft_id, token_guard,
  notify_reauth_required, finish_delivery, send_reply, flip_and_send, unless_aborted, with_client,
  screen, thread_and_send, answer_latest, pre_checks, unless_stale, after_miss, release_for_retry,
  scan_first, reauth, with_credential, screened, apply_lever, with_agent, after_claim, landing_of,
  collapse_on_throw, run_claimed, run_or_throw, execute, dead_letter_on_throw, run_send_execute,
  granted, auth_error, credential_failure, found, missed, gone, unverifiable, accepted,
  send_failure, not_claimable, reauth_held, stale, aborted_before_send, claim_lost, draft_gone,
  held, terminal, recovered, delivered, threw,
}
use ai_email_support_agent.Worker.Send.Thread.{
  is_inbound, thread_of, has_newer_inbound, find_last, is_some,
}
use ai_email_support_agent.Worker.Send.Ledger.{
  then_page-sends, insert_page-sends, land_held-sends, land_terminal-sends, land_stale-sends,
  land_dead_letter-sends, complete_send-sends,
}

-- The updates that a run makes to the row of its send.
pub data Write : (OutboundSend → Bool) → (OutboundSend → OutboundSend) → Type 0 where
  claims : (token now : ℕ) → Write (claim_guard now) (claim_set token now)
  releases :
      (status : OutboundSendStatus) (error : SendError) (after : Option ℕ)
      → Write not_sent (released status error after)
  collapses : (token now : ℕ) → Write (collapse_guard token) (collapse_set now)
  flips : (token at : ℕ) → Write (flip_guard token at) unchanged
  stores : (token : ℕ) (created : Option ℕ) → Write (token_guard token) (store_draft_id created)
  completes :
      (l : Landing) (input : CompleteSendInput) → Write (is_status claimed) (complete_set l input)

pub data Touched (send : ℕ) : List OutboundSend → List OutboundSend → Type 0 where
  untouched : {xs : List OutboundSend} → Touched send xs xs
  touch :
      {xs ys : List OutboundSend} {guard : OutboundSend → Bool} {set : OutboundSend → OutboundSend}
      → Touched send xs ys
      → Write guard set
      → Touched send xs (update_row send_id send guard set ys).0

Touched-eq :
    (send : ℕ) (xs ys zs : List OutboundSend) → ys ≡ zs → Touched send xs zs → Touched send xs ys
Touched-eq send xs ys zs e t = rw e t

Touched-trans :
    (send : ℕ) (xs ys zs : List OutboundSend)
    → Touched send xs ys
    → Touched send ys zs
    → Touched send xs zs
Touched-trans send xs _ _ p untouched = p
Touched-trans send xs ys _ p (touch q w) = touch (Touched-trans send xs ys _ p q) w

-- `w'` is `w` but for writes of the run to its send.
abbrev After : ℕ → World → World → Type 0
After send w w' = Touched send w.sends w'.sends

land_held-After :
    (l : Landing) (lever : KillLever) (w : World) → After l.send_id w (land_held l lever w)
land_held-After l lever w = rw (land_held-sends l lever w) (touch untouched (releases _ _ _))

land_terminal-After :
    (l : Landing) (reason : SendError) (escalate : Bool) (w : World)
    → After l.send_id w (land_terminal l reason escalate w)
land_terminal-After l reason escalate w =
    rw (land_terminal-sends l reason escalate w) (touch untouched (releases _ _ _))

land_stale-After : (l : Landing) (w : World) → After l.send_id w (land_stale l w)
land_stale-After l w = rw (land_stale-sends l w) (touch untouched (releases _ _ _))

set_send_status-After :
    (send : ℕ) (status : OutboundSendStatus) (error : SendError) (after : Option ℕ) (w : World)
    → After send w (set_send_status send status error after w).1
unfolding set_send_status
set_send_status-After send status error after w = touch untouched (releases _ _ _)

sum-cases {ℓ κ} :
    {A : Type ℓ} {B : Type κ} (s : A ⊎ B) → ((a : A) × (s ≡ inl a)) ⊎ ((b : B) × (s ≡ inr b))
sum-cases (inl a) = inl (a, refl)
sum-cases (inr b) = inr (b, refl)

answer-cases : (a : SendAnswer) → ((id : ℕ) × (a ≡ accepted id)) ⊎ (a ≡ send_failure)
answer-cases (accepted id) = inl (id, refl)
answer-cases send_failure = inr refl

notify_reauth_required-sends :
    (connection day : ℕ) (w : World) → (notify_reauth_required connection day w).sends ≡ w.sends
unfolding notify_reauth_required
notify_reauth_required-sends connection day w = then_page-sends _ ∙ insert_page-sends _ _ _ _

module _ (to_iso_string : ℕ → List ℕ) (models : ModelSettings) (answers : Answers) where
  complete_send-After :
      (l : Landing) (input : CompleteSendInput) (w : World)
      → After l.send_id w (complete_send to_iso_string models l input w)
  complete_send-After l input w =
      rw (complete_send-sends to_iso_string models l input w) (touch untouched (completes l input))

  send_reply-After :
      (c : ClaimedSend) (l : Landing) (reply : Reply) (w : World)
      → After l.send_id w (send_reply to_iso_string models answers c l reply w).1
  unfolding send_reply finish_delivery collapse_claim_horizon
  send_reply-After c l reply w = elim (answer-cases answers.send_reply) [
    | inl (id, e) ↦ rw e (
        rw (complete_send-sends to_iso_string models l _ _)
          (touch (touch untouched (stores c.claim_token answers.created_draft)) (completes l _)))
    | inr e ↦ rw e (
        touch (touch untouched (stores c.claim_token answers.created_draft))
          (collapses c.claim_token l.now))
  ]

  flip_and_send-After :
      (c : ClaimedSend) (l : Landing) (reply : Reply) (w : World)
      → After l.send_id w (flip_and_send to_iso_string models answers c l reply w).1
  unfolding flip_and_send
  flip_and_send-After c l reply w =
      elim (Bool-cases
        (update_row send_id l.send_id (flip_guard c.claim_token answers.flip_at) unchanged
          w.sends).1) [
            | inr lost ↦ rw lost untouched
            | inl mine ↦
                elim (Bool-cases
                  (update_row draft_id l.draft_id awaits_delivery (move_draft DraftStatus.sending)
                    w.drafts).1) [
                      | inr dropped ↦
                          rw (mine, dropped)
                            (land_terminal-After l SendError.draft_not_approved false w)
                      | inl flipped ↦
                          rw (mine, flipped)
                            (Touched-trans l.send_id _ _ _
                              (touch untouched (flips c.claim_token answers.flip_at))
                              (send_reply-After c l reply _))
                    ]
          ]

  unless_aborted-After :
      (late : Bool) (c : ClaimedSend) (l : Landing) (reply : Reply) (w : World)
      → After l.send_id w (unless_aborted to_iso_string models answers late c l reply w).1
  unfolding unless_aborted
  unless_aborted-After true c l reply w = set_send_status-After l.send_id _ _ _ w
  unless_aborted-After false c l reply w = flip_and_send-After c l reply w

  thread_and_send-After :
      (c : ClaimedSend) (l : Landing) (recipient : Text) (thread : List Message) (target : Option ℕ)
      (w : World)
      → After l.send_id w
          (thread_and_send to_iso_string models answers c l recipient thread target w).1
  unfolding thread_and_send
  thread_and_send-After c l recipient thread none w =
      land_terminal-After l SendError.no_rfc_message_id true w
  thread_and_send-After c l recipient thread (some target) w =
      unless_aborted-After answers.aborted c l _ w

  pre_checks-After :
      (c : ClaimedSend) (l : Landing) (recipient : Option Text) (thread : List Message) (w : World)
      → After l.send_id w (pre_checks to_iso_string models answers c l recipient thread w).1
  unfolding pre_checks answer_latest
  pre_checks-After c l none thread w = land_terminal-After l SendError.no_customer_email true w
  pre_checks-After c l (some recipient) thread w =
      elim (Option-cases (find_last is_inbound thread)) [
        | inl quiet ↦ rw quiet (land_terminal-After l SendError.no_inbound_message true w)
        | inr (latest, e) ↦ rw e (thread_and_send-After c l recipient thread _ w)
      ]

  after_miss-After :
      (c : ClaimedSend) (l : Landing) (lever : Option KillLever) (w : World)
      → After l.send_id w (after_miss to_iso_string models answers c l lever w).1
  unfolding after_miss unless_stale
  after_miss-After c l (some lever) w = land_held-After l lever w
  after_miss-After c l none w =
      elim (Bool-cases
        (has_newer_inbound c.draft.thread_snapshot_at (thread_of c.ticket.id w.messages))) [
          | inl newer ↦ rw newer (land_stale-After l w)
          | inr same_thread ↦ rw same_thread (pre_checks-After c l _ _ w)
        ]

  release_for_retry-After :
      (l : Landing) (error : SendError) (w : World)
      → After l.send_id w (release_for_retry to_iso_string models answers l error w)
  unfolding release_for_retry
  release_for_retry-After l error w = set_send_status-After l.send_id _ _ _ w

  scan_first-After :
      (c : ClaimedSend) (l : Landing) (lever : Option KillLever) (scan : Scan) (w : World)
      → After l.send_id w (scan_first to_iso_string models answers c l lever scan w).1
  unfolding scan_first finish_delivery
  scan_first-After c l lever (found id) w = complete_send-After l _ w
  scan_first-After c l lever missed w = after_miss-After c l lever w
  scan_first-After c l lever gone w = after_miss-After c l lever w
  scan_first-After c l lever unverifiable w = release_for_retry-After l SendError.failure w

  reauth-After :
      (c : ClaimedSend) (l : Landing) (w : World)
      → After l.send_id w (reauth to_iso_string models answers c l w).1
  unfolding reauth audit_in update_draft
  reauth-After c l w = elim (Bool-cases (draft_in DraftStatus.sending c.draft)) [
    | inl unverified ↦ rw unverified (
        Touched-eq l.send_id _ _ _ (notify_reauth_required-sends l.connection_id l.day _)
          (release_for_retry-After l SendError.delivery_unverified w))
    | inr fresh ↦ rw fresh (
        Touched-eq l.send_id _ _ _ (notify_reauth_required-sends l.connection_id l.day _) (
          set_send_status-After l.send_id OutboundSendStatus.held SendError.reauth_required none w))
  ]

  with_credential-After :
      (c : ClaimedSend) (l : Landing) (lever : Option KillLever) (credential : Credential)
      (w : World)
      → After l.send_id w (with_credential to_iso_string models answers c l lever credential w).1
  unfolding with_credential
  with_credential-After c l lever granted w = scan_first-After c l lever answers.scan w
  with_credential-After c l lever auth_error w = reauth-After c l w
  with_credential-After c l lever credential_failure w = untouched

  with_client-After :
      (ready : Bool) (c : ClaimedSend) (l : Landing) (lever : Option KillLever) (w : World)
      → After l.send_id w (with_client to_iso_string models answers ready c l lever w).1
  unfolding with_client
  with_client-After true c l lever w = with_credential-After c l lever answers.credential w
  with_client-After false c l lever w = untouched

  screened-After :
      (ok : Bool) (c : ClaimedSend) (l : Landing) (lever : Option KillLever) (w : World)
      → After l.send_id w (screened to_iso_string models answers ok c l lever w).1
  unfolding screened
  screened-After true c l lever w = with_client-After answers.has_oauth c l lever w
  screened-After false c l lever w = land_terminal-After l SendError.guardrail true w

  apply_lever-After :
      (c : ClaimedSend) (l : Landing) (lever : Option KillLever) (w : World)
      → After l.send_id w (apply_lever to_iso_string models answers c l lever w).1
  unfolding apply_lever screen
  apply_lever-After c l none w = screened-After answers.screened_ok c l none w
  apply_lever-After c l (some lever) w = elim (Bool-cases (draft_in DraftStatus.sending c.draft)) [
    | inl deferred ↦ rw deferred (screened-After answers.screened_ok c l (some lever) w)
    | inr now ↦ rw now (land_held-After l lever w)
  ]

  after_claim-After :
      (c : ClaimedSend) (l : Landing) (w : World)
      → After l.send_id w (after_claim to_iso_string models answers c l w).1
  unfolding after_claim with_agent
  after_claim-After c l w = elim (Bool-cases (is_some c.agent)) [
    | inr absent ↦ rw absent (land_held-After l KillLever.agent_inactive w)
    | inl here ↦ elim (Bool-cases (awaits_delivery c.draft)) [
      | inr retired ↦
          rw (here, retired) (land_terminal-After l SendError.draft_not_approved false w)
      | inl awaits ↦ elim (Bool-cases (is_some c.draft.final_body)) [
        | inr empty ↦
            rw (here, awaits, empty) (land_terminal-After l SendError.no_final_body true w)
        | inl body ↦ rw (here, awaits, body) (apply_lever-After c l (first_kill_lever c) w)
      ]
    ]
  ]

  collapse_on_throw-After :
      (c : ClaimedSend) (send : ℕ) (w : World) (r : Ending × World)
      → After send w r.1
      → After send w (collapse_on_throw to_iso_string models answers c send r).1
  unfolding collapse_on_throw collapse_claim_horizon
  collapse_on_throw-After c send w (threw e, w') t =
      touch t (collapses c.claim_token answers.failed_at)
  collapse_on_throw-After c send w (not_claimable, w') t = t
  collapse_on_throw-After c send w (reauth_held, w') t = t
  collapse_on_throw-After c send w (stale, w') t = t
  collapse_on_throw-After c send w (aborted_before_send, w') t = t
  collapse_on_throw-After c send w (claim_lost, w') t = t
  collapse_on_throw-After c send w (draft_gone, w') t = t
  collapse_on_throw-After c send w (held x, w') t = t
  collapse_on_throw-After c send w (terminal x, w') t = t
  collapse_on_throw-After c send w (recovered x, w') t = t
  collapse_on_throw-After c send w (delivered x, w') t = t

  run_claimed-After :
      (send now day : ℕ) (c : ClaimedSend) (w : World)
      → After send w (run_claimed to_iso_string models answers send now day (some c, w)).1
  unfolding run_claimed landing_of
  run_claimed-After send now day c w =
      collapse_on_throw-After c send w _
        (after_claim-After c (landing_of to_iso_string models answers send now day c) w)

  module _ (month_of : ℕ → Period) (settings : Settings) (send token now day : ℕ) where
    committed-After :
        (w w' : World) (read : ClaimError ⊎ ClaimedSend)
        → After send w w'
        → After send w
            (run_or_throw to_iso_string models answers send now day w (commit month_of w' read)).1
    committed-After w w' (inl e) t = untouched
    committed-After w w' (inr c) t =
        Touched-trans send _ _ _ t (run_claimed-After send now day c w')

    returned-After :
        (w w' : World) (row : Option OutboundSend)
        → After send w w'
        → After send w
            (run_or_throw to_iso_string models answers send now day w
              (returning month_of settings token now row w')).1
    unfolding run_claimed
    returned-After w w' none t = t
    returned-After w w' (some row) t =
        committed-After w w' (read_claim month_of settings token now row w') t

    execute-After :
        (w : World)
        → After send w
            (execute to_iso_string models answers month_of settings send token now day w).1
    unfolding execute claim_send run_claimed
    execute-After w =
        elim (Bool-cases
          (update_row send_id send (claim_guard now) (claim_set token now) w.sends).1) [
            | inr busy ↦ rw busy untouched
            | inl hit ↦ rw hit (returned-After w _ _ (touch untouched (claims token now)))
          ]

  dead_letter_on_throw-After :
      (last_attempt : Bool) (send day : ℕ) (w : World) (r : Ending × World)
      → After send w r.1
      → After send w (dead_letter_on_throw to_iso_string models answers last_attempt send day r).1
  unfolding dead_letter_on_throw
  dead_letter_on_throw-After true send day w (threw e, w') t =
      Touched-eq send _ _ _ (land_dead_letter-sends send day answers.failed_at w')
        (touch t (releases _ _ _))
  dead_letter_on_throw-After false send day w (threw e, w') t = t
  dead_letter_on_throw-After last send day w (not_claimable, w') t = t
  dead_letter_on_throw-After last send day w (reauth_held, w') t = t
  dead_letter_on_throw-After last send day w (stale, w') t = t
  dead_letter_on_throw-After last send day w (aborted_before_send, w') t = t
  dead_letter_on_throw-After last send day w (claim_lost, w') t = t
  dead_letter_on_throw-After last send day w (draft_gone, w') t = t
  dead_letter_on_throw-After last send day w (held x, w') t = t
  dead_letter_on_throw-After last send day w (terminal x, w') t = t
  dead_letter_on_throw-After last send day w (recovered x, w') t = t
  dead_letter_on_throw-After last send day w (delivered x, w') t = t

  pub run_send_execute-After :
      (month_of : ℕ → Period) (settings : Settings) (last_attempt : Bool)
      (send token now day failed_day : ℕ) (w : World)
      → After send w
          (run_send_execute to_iso_string models answers month_of settings last_attempt send token
            now day failed_day w).1
  unfolding run_send_execute
  run_send_execute-After month_of settings last_attempt send token now day failed_day w =
      dead_letter_on_throw-After last_attempt send failed_day w _
        (execute-After month_of settings send token now day w)
