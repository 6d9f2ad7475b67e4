-- ===== src/Worker/Send/Blind.antt =====
-- apps/worker/src/jobs/send-execute.ts: when a run hands a reply to the mailbox.
use ai_email_support_agent.Base.{
  ℕ, ◌≡◌, refl, ◌∙◌, Bool, true, false, not, Option, none, some, List, ◌⊎◌, inl, inr, ◌&&◌, arith,
  Bool-cases, Option-cases, find_row, update_row,
}
use ai_email_support_agent.Core.Transitions.{DraftStatus, OutboundSendStatus, claimed}
use ai_email_support_agent.Core.Billing.{Period}
use ai_email_support_agent.Db.Drafts.{OutboundSend, KillLever, SendError}
use ai_email_support_agent.Db.Tables.{DedupeKey, Text, has_key, update_ticket}
use ai_email_support_agent.Db.Sends.{
  World, Message, Reply, send_id, enqueue, enqueue_page, update_draft, audit_in, insert_page,
}
use ai_email_support_agent.Worker.Send.{
  Settings, ClaimedSend, ClaimError, is_status, claim_send, claim_guard, claim_set, read_claim,
  first_kill_lever, commit, returning,
}
use ai_email_support_agent.Worker.Send.Land.{
  Landing, set_send_status, draft_in, awaits_delivery, walk_back_draft, unless_sent, then_page,
  held_writes, land_held, escalate_in, terminal_writes, land_terminal, stale_writes, land_stale,
  update_ticket_in, dead_letter_writes, dead_letter_of, land_dead_letter, collapse_claim_horizon,
}
use ai_email_support_agent.Worker.Send.Complete.{
  CompleteSendInput, ModelSettings, complete_set, completion_writes, complete_send, meter_send,
  meter_conversation, send_draft, settle_ticket, park_guard, parked, hand_back_job,
}
use ai_email_support_agent.Worker.Send.Run.{
  Credential, granted, auth_error, credential_failure, Scan, found, missed, gone, unverifiable,
  Answers, Ending, threw, not_claimable, reauth_held, stale, aborted_before_send, claim_lost,
  draft_gone, held, terminal, recovered, delivered, notify_reauth_required, finish_delivery,
  unless_aborted, thread_and_send, answer_latest, pre_checks, unless_stale, after_miss,
  release_for_retry, scan_first, reauth, with_credential, with_client, screened, screen,
  apply_lever, with_agent, after_claim, collapse_on_throw, run_claimed, run_or_throw, execute,
  dead_letter_on_throw, run_send_execute,
}
use ai_email_support_agent.Worker.Send.Thread.{
  is_some, is_inbound, thread_of, has_newer_inbound, find_last,
}

abbrev SameReplies : World → World → Type 0
SameReplies w w' = w'.replies ≡ w.replies

enqueue_page-replies : (n : Option ℕ) (w : World) → SameReplies w (enqueue_page n w)
unfolding enqueue
enqueue_page-replies none w = refl
enqueue_page-replies (some n) w = refl

then_page-replies : (r : Option ℕ × World) → SameReplies r.1 (then_page r)
then_page-replies (n, w) = enqueue_page-replies n w

insert_page-replies :
    (t d : Option ℕ) (k : DedupeKey) (w : World) → SameReplies w (insert_page t d k w).1
unfolding insert_page
insert_page-replies t d k w = elim (Bool-cases (has_key k w.tables.notifications)) [
  | inl h ↦ rw h refl
  | inr h ↦ rw h refl
]

unless_sent-replies :
    (hit : Bool) (k : World → Option ℕ × World) (w w' : World)
    → SameReplies w w'
    → SameReplies w' (k w').1
    → SameReplies w (unless_sent (hit, w') k w).1
unless_sent-replies true k w w' a b = b ∙ a
unless_sent-replies false k w w' a b = refl

held_writes-replies : (l : Landing) (w : World) → SameReplies w (held_writes l w).1
unfolding held_writes audit_in walk_back_draft update_draft
held_writes-replies l w = insert_page-replies _ _ _ _

land_held-replies :
    (l : Landing) (lever : KillLever) (w : World) → SameReplies w (land_held l lever w)
unfolding land_held set_send_status
land_held-replies l lever w =
    then_page-replies _ ∙ unless_sent-replies _ (held_writes l) w _ refl (held_writes-replies l _)

terminal_writes-replies :
    (l : Landing) (escalate : Bool) (w : World) → SameReplies w (terminal_writes l escalate w).1
unfolding terminal_writes escalate_in audit_in walk_back_draft update_draft
terminal_writes-replies l true w = refl
terminal_writes-replies l false w = refl

land_terminal-replies :
    (l : Landing) (reason : SendError) (escalate : Bool) (w : World)
    → SameReplies w (land_terminal l reason escalate w)
unfolding land_terminal set_send_status
land_terminal-replies l reason escalate w =
    then_page-replies _
    ∙ unless_sent-replies _ (terminal_writes l escalate) w _ refl
        (terminal_writes-replies l escalate _)

stale_writes-replies : (l : Landing) (w : World) → SameReplies w (stale_writes l w).1
unfolding stale_writes enqueue audit_in walk_back_draft update_draft update_ticket_in
stale_writes-replies l w = enqueue_page-replies _ _ ∙ insert_page-replies _ _ _ _

land_stale-replies : (l : Landing) (w : World) → SameReplies w (land_stale l w)
unfolding land_stale set_send_status
land_stale-replies l w = unless_sent-replies _ (stale_writes l) w _ refl (stale_writes-replies l _)

dead_letter_of-replies :
    (row : Option OutboundSend) (day now : ℕ) (w : World)
    → SameReplies w (dead_letter_of row day now w).1
unfolding dead_letter_writes escalate_in audit_in walk_back_draft update_draft set_send_status
dead_letter_of-replies none day now w = refl
dead_letter_of-replies (some row) day now w =
    elim (Bool-cases (is_status OutboundSendStatus.sent row)) [
      | inl over ↦ rw over refl
      | inr pending ↦ rw pending refl
    ]

land_dead_letter-replies :
    (send day now : ℕ) (w : World) → SameReplies w (land_dead_letter send day now w)
unfolding land_dead_letter
land_dead_letter-replies send day now w =
    then_page-replies _ ∙ dead_letter_of-replies (find_row send_id send w.sends) day now w

settle_ticket-replies :
    (l : Landing) (snapshot : ℕ) (w : World) → SameReplies w (settle_ticket l snapshot w).1
unfolding settle_ticket
settle_ticket-replies l snapshot w =
    elim (Bool-cases (update_ticket l.ticket_id (park_guard snapshot) parked w.tables.tickets).1) [
      | inl f ↦ rw f refl
      | inr f ↦ rw f refl
    ]

abbrev is_granted : Credential → Bool
is_granted granted = true
is_granted _ = false

-- The scan established that nothing was delivered.
abbrev is_miss : Scan → Bool
is_miss missed = true
is_miss gone = true
is_miss _ = false

-- What a run must be answered before it may hand over a reply.
abbrev pub may_send : Answers → Bool
may_send a =
    a.screened_ok && (a.has_oauth && (is_granted a.credential && (is_miss a.scan && not a.aborted)))

module _ (to_iso_string : ℕ → List ℕ) (models : ModelSettings) (answers : Answers) where
  meter_conversation-replies :
      (l : Landing) (input : CompleteSendInput) (w : World)
      → SameReplies w (meter_conversation to_iso_string models l input w)
  unfolding meter_conversation
  meter_conversation-replies l input w = ground arith

  meter_send-replies :
      (l : Landing) (input : CompleteSendInput) (w : World)
      → SameReplies w (meter_send to_iso_string models l input w)
  unfolding meter_send audit_in
  meter_send-replies l input w = meter_conversation-replies l input _

  hand_back_job-replies :
      (l : Landing) (b : Bool) (w : World)
      → SameReplies w (hand_back_job to_iso_string models l b w)
  unfolding enqueue
  hand_back_job-replies l true w = refl
  hand_back_job-replies l false w = refl

  complete_send-replies :
      (l : Landing) (input : CompleteSendInput) (w : World)
      → SameReplies w (complete_send to_iso_string models l input w)
  unfolding complete_send completion_writes send_draft update_draft enqueue
  complete_send-replies l input w =
      elim (Bool-cases
        (update_row send_id l.send_id (is_status claimed) (complete_set l input) w.sends).1) [
          | inl done ↦ rw done (
              hand_back_job-replies l _ _
              ∙ meter_send-replies l input _
              ∙ settle_ticket-replies l input.thread_snapshot_at _)
          | inr late ↦ rw late (settle_ticket-replies l input.thread_snapshot_at _)
        ]

  unless_aborted-replies :
      (late : Bool) (c : ClaimedSend) (l : Landing) (reply : Reply) (w : World)
      → not late ≡ false
      → SameReplies w (unless_aborted to_iso_string models answers late c l reply w).1
  unfolding unless_aborted set_send_status
  unless_aborted-replies true c l reply w h = refl
  unless_aborted-replies false c l reply w h = absurd (cc)

  thread_and_send-replies :
      (c : ClaimedSend) (l : Landing) (recipient : Text) (thread : List Message) (target : Option ℕ)
      (w : World)
      → not answers.aborted ≡ false
      → SameReplies w (thread_and_send to_iso_string models answers c l recipient thread target w).1
  unfolding thread_and_send
  thread_and_send-replies c l recipient thread none w h =
      land_terminal-replies l SendError.no_rfc_message_id true w
  thread_and_send-replies c l recipient thread (some target) w h =
      unless_aborted-replies answers.aborted c l _ w h

  pre_checks-replies :
      (c : ClaimedSend) (l : Landing) (recipient : Option Text) (thread : List Message) (w : World)
      → not answers.aborted ≡ false
      → SameReplies w (pre_checks to_iso_string models answers c l recipient thread w).1
  unfolding pre_checks answer_latest
  pre_checks-replies c l none thread w h =
      land_terminal-replies l SendError.no_customer_email true w
  pre_checks-replies c l (some recipient) thread w h =
      elim (Option-cases (find_last is_inbound thread)) [
        | inl quiet ↦ rw quiet (land_terminal-replies l SendError.no_inbound_message true w)
        | inr (latest, e) ↦ rw e (thread_and_send-replies c l recipient thread _ w h)
      ]

  after_miss-replies :
      (c : ClaimedSend) (l : Landing) (lever : Option KillLever) (w : World)
      → not answers.aborted ≡ false
      → SameReplies w (after_miss to_iso_string models answers c l lever w).1
  unfolding after_miss unless_stale
  after_miss-replies c l (some lever) w h = land_held-replies l lever w
  after_miss-replies c l none w h =
      elim (Bool-cases
        (has_newer_inbound c.draft.thread_snapshot_at (thread_of c.ticket.id w.messages))) [
          | inl newer ↦ rw newer (land_stale-replies l w)
          | inr same_thread ↦ rw same_thread (pre_checks-replies c l _ _ w h)
        ]

  scan_first-replies :
      (c : ClaimedSend) (l : Landing) (lever : Option KillLever) (scan : Scan) (w : World)
      → (is_miss scan && not answers.aborted) ≡ false
      → SameReplies w (scan_first to_iso_string models answers c l lever scan w).1
  unfolding scan_first finish_delivery release_for_retry set_send_status
  scan_first-replies c l lever (found id) w h = complete_send-replies l _ w
  scan_first-replies c l lever missed w h = after_miss-replies c l lever w h
  scan_first-replies c l lever gone w h = after_miss-replies c l lever w h
  scan_first-replies c l lever unverifiable w h = refl

  reauth-replies :
      (c : ClaimedSend) (l : Landing) (w : World)
      → SameReplies w (reauth to_iso_string models answers c l w).1
  unfolding reauth audit_in update_draft release_for_retry set_send_status notify_reauth_required
  reauth-replies c l w = elim (Bool-cases (draft_in DraftStatus.sending c.draft)) [
    | inl unverified ↦ rw unverified (then_page-replies _ ∙ insert_page-replies _ _ _ _)
    | inr fresh ↦ rw fresh (then_page-replies _ ∙ insert_page-replies _ _ _ _)
  ]

  with_credential-replies :
      (c : ClaimedSend) (l : Landing) (lever : Option KillLever) (credential : Credential)
      (w : World)
      → (is_granted credential && (is_miss answers.scan && not answers.aborted)) ≡ false
      → SameReplies w (with_credential to_iso_string models answers c l lever credential w).1
  unfolding with_credential
  with_credential-replies c l lever granted w h = scan_first-replies c l lever answers.scan w h
  with_credential-replies c l lever auth_error w h = reauth-replies c l w
  with_credential-replies c l lever credential_failure w h = refl

  with_client-replies :
      (ready : Bool) (c : ClaimedSend) (l : Landing) (lever : Option KillLever) (w : World)
      → (ready && (is_granted answers.credential && (is_miss answers.scan && not answers.aborted)))
        ≡ false
      → SameReplies w (with_client to_iso_string models answers ready c l lever w).1
  unfolding with_client
  with_client-replies true c l lever w h = with_credential-replies c l lever answers.credential w h
  with_client-replies false c l lever w h = refl

  screened-replies :
      (ok : Bool) (c : ClaimedSend) (l : Landing) (lever : Option KillLever) (w : World)
      → (ok
          && (answers.has_oauth
              && (is_granted answers.credential && (is_miss answers.scan && not answers.aborted))))
        ≡ false
      → SameReplies w (screened to_iso_string models answers ok c l lever w).1
  unfolding screened
  screened-replies true c l lever w h = with_client-replies answers.has_oauth c l lever w h
  screened-replies false c l lever w h = land_terminal-replies l SendError.guardrail true w

  apply_lever-replies :
      (c : ClaimedSend) (l : Landing) (lever : Option KillLever) (w : World)
      → may_send answers ≡ false
      → SameReplies w (apply_lever to_iso_string models answers c l lever w).1
  unfolding apply_lever screen
  apply_lever-replies c l none w h = screened-replies answers.screened_ok c l none w h
  apply_lever-replies c l (some lever) w h =
      elim (Bool-cases (draft_in DraftStatus.sending c.draft)) [
        | inl deferred ↦ rw deferred (screened-replies answers.screened_ok c l (some lever) w h)
        | inr now ↦ rw now (land_held-replies l lever w)
      ]

  after_claim-replies :
      (c : ClaimedSend) (l : Landing) (w : World)
      → may_send answers ≡ false
      → SameReplies w (after_claim to_iso_string models answers c l w).1
  unfolding after_claim with_agent
  after_claim-replies c l w h = elim (Bool-cases (is_some c.agent)) [
    | inr absent ↦ rw absent (land_held-replies l KillLever.agent_inactive w)
    | inl here ↦ elim (Bool-cases (awaits_delivery c.draft)) [
      | inr retired ↦
          rw (here, retired) (land_terminal-replies l SendError.draft_not_approved false w)
      | inl awaits ↦ elim (Bool-cases (is_some c.draft.final_body)) [
        | inr empty ↦
            rw (here, awaits, empty) (land_terminal-replies l SendError.no_final_body true w)
        | inl body ↦ rw (here, awaits, body) (apply_lever-replies c l (first_kill_lever c) w h)
      ]
    ]
  ]

  collapse_on_throw-replies :
      (c : ClaimedSend) (send : ℕ) (r : Ending × World)
      → SameReplies r.1 (collapse_on_throw to_iso_string models answers c send r).1
  unfolding collapse_on_throw collapse_claim_horizon
  collapse_on_throw-replies c send (threw x, w) = refl
  collapse_on_throw-replies c send (not_claimable, w) = refl
  collapse_on_throw-replies c send (reauth_held, w) = refl
  collapse_on_throw-replies c send (stale, w) = refl
  collapse_on_throw-replies c send (aborted_before_send, w) = refl
  collapse_on_throw-replies c send (claim_lost, w) = refl
  collapse_on_throw-replies c send (draft_gone, w) = refl
  collapse_on_throw-replies c send (held x, w) = refl
  collapse_on_throw-replies c send (terminal x, w) = refl
  collapse_on_throw-replies c send (recovered x, w) = refl
  collapse_on_throw-replies c send (delivered x, w) = refl

  dead_letter_on_throw-replies :
      (last_attempt : Bool) (send day : ℕ) (r : Ending × World)
      → SameReplies r.1
          (dead_letter_on_throw to_iso_string models answers last_attempt send day r).1
  unfolding dead_letter_on_throw
  dead_letter_on_throw-replies true send day (threw e, w) =
      land_dead_letter-replies send day answers.failed_at w
  dead_letter_on_throw-replies false send day (threw e, w) = refl
  dead_letter_on_throw-replies last send day (not_claimable, w) = refl
  dead_letter_on_throw-replies last send day (reauth_held, w) = refl
  dead_letter_on_throw-replies last send day (stale, w) = refl
  dead_letter_on_throw-replies last send day (aborted_before_send, w) = refl
  dead_letter_on_throw-replies last send day (claim_lost, w) = refl
  dead_letter_on_throw-replies last send day (draft_gone, w) = refl
  dead_letter_on_throw-replies last send day (held x, w) = refl
  dead_letter_on_throw-replies last send day (terminal x, w) = refl
  dead_letter_on_throw-replies last send day (recovered x, w) = refl
  dead_letter_on_throw-replies last send day (delivered x, w) = refl

  run_claimed-replies :
      (send now day : ℕ) (r : Option ClaimedSend × World)
      → may_send answers ≡ false
      → SameReplies r.1 (run_claimed to_iso_string models answers send now day r).1
  unfolding run_claimed
  run_claimed-replies send now day (none, w) h = refl
  run_claimed-replies send now day (some c, w) h =
      collapse_on_throw-replies c send _ ∙ after_claim-replies c _ w h

  module _ (month_of : ℕ → Period) (settings : Settings) (send token now day : ℕ)
      (h : may_send answers ≡ false) where
    committed-replies :
        (w w' : World) (read : ClaimError ⊎ ClaimedSend)
        → SameReplies w w'
        → SameReplies w
            (run_or_throw to_iso_string models answers send now day w (commit month_of w' read)).1
    committed-replies w w' (inl e) t = refl
    committed-replies w w' (inr c) t = run_claimed-replies send now day (some c, w') h ∙ t

    returned-replies :
        (w w' : World) (row : Option OutboundSend)
        → SameReplies w w'
        → SameReplies w
            (run_or_throw to_iso_string models answers send now day w
              (returning month_of settings token now row w')).1
    returned-replies w w' none t = run_claimed-replies send now day (none, w') h ∙ t
    returned-replies w w' (some row) t =
        committed-replies w w' (read_claim month_of settings token now row w') t

    execute-replies :
        (w : World)
        → SameReplies w
            (execute to_iso_string models answers month_of settings send token now day w).1
    unfolding execute claim_send
    execute-replies w =
        elim (Bool-cases
          (update_row send_id send (claim_guard now) (claim_set token now) w.sends).1) [
            | inr busy ↦ rw busy (run_claimed-replies send now day (none, w) h)
            | inl hit ↦ rw hit (returned-replies w _ _ refl)
          ]

  -- No reply is handed to the mailbox by a run whose guardrails refused the body, that has no client
  -- or credential, whose scan did not establish that nothing was delivered, or that ran past its
  -- deadline: whatever the send, the draft, the ticket, the levers and the attempt.
  pub run_send_execute-no_blind_reply :
      (month_of : ℕ → Period) (settings : Settings) (last_attempt : Bool)
      (send token now day failed_day : ℕ) (w : World)
      → may_send answers ≡ false
      → (run_send_execute to_iso_string models answers month_of settings last_attempt send token now
          day failed_day w).1.replies
        ≡ w.replies
  unfolding run_send_execute
  run_send_execute-no_blind_reply month_of settings last send token now day failed_day w h =
      dead_letter_on_throw-replies last send failed_day _
      ∙ execute-replies month_of settings send token now day h w
