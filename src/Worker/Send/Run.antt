-- ===== src/Worker/Send/Run.antt =====
-- apps/worker/src/jobs/send-execute.ts: afterClaim, execute and runSendExecute. What the guardrails, the
-- credential, the mailbox and the clock answer is a value of `Answers`; a run is one path through them.
use ai_email_support_agent.Base.{
  ℕ, ◌+◌, ◌*◌, Bool, true, false, not, Option, none, some, List, [], ◌∷◌, ◌++◌, ◌⊎◌, inl, inr, ◌&&◌,
  ltb, if◌then◌else◌, update_row, nat_eq, map,
}
use ai_email_support_agent.Core.Transitions.{DraftStatus, OutboundSendStatus, claimed}
use ai_email_support_agent.Core.Billing.{Period}
use ai_email_support_agent.Core.Redraft.{invariants}
use ai_email_support_agent.Db.Tables.{Text, DedupeKey, Actor, AuditAction}
use ai_email_support_agent.Db.Drafts.{OutboundSend, KillLever, SendError}
use ai_email_support_agent.Db.Sends.{
  World, Message, Reply, send_id, draft_id, update_draft, audit_in, insert_page,
}
use ai_email_support_agent.Mail.Threading.{build_references}
use ai_email_support_agent.Worker.Send.{
  ClaimedSend, ClaimError, Settings, is_status, claim_send, first_kill_lever,
}
use ai_email_support_agent.Worker.Send.Land.{
  Landing, set_send_status, draft_in, awaits_delivery, move_draft, land_held, land_terminal,
  then_page, land_stale, land_dead_letter, has_token, collapse_claim_horizon,
}
use ai_email_support_agent.Worker.Send.Complete.{CompleteSendInput, ModelSettings, complete_send}
use ai_email_support_agent.Worker.Send.Thread.{
  is_inbound, thread_of, has_newer_inbound, find_last, is_some, or_else, in_reply_to_of,
}

pub data Credential : Type 0 where
  granted auth_error credential_failure : Credential

-- `findSentByMarker`: an id, `null`, a MessageGoneError, or any other error.
pub data Scan : Type 0 where
  found : ℕ → Scan
  missed gone unverifiable : Scan

pub data SendAnswer : Type 0 where
  accepted : ℕ → SendAnswer
  send_failure : SendAnswer

pub record Answers : Type 0 where
  pub screened_ok : Bool
  pub has_oauth : Bool
  pub credential : Credential
  pub scan : Scan
  pub aborted : Bool
  pub flip_at : ℕ
  pub created_draft : Option ℕ
  pub send_reply : SendAnswer
  pub read_back : Option ℕ
  pub failed_at : ℕ

pub data Thrown : Type 0 where
  claim_error : ClaimError → Thrown
  no_oauth credential_error auth_unverified scan_error send_error : Thrown

pub data Ending : Type 0 where
  not_claimable reauth_held stale aborted_before_send claim_lost draft_gone : Ending
  held : KillLever → Ending
  terminal : SendError → Ending
  recovered delivered : ℕ → Ending
  threw : Thrown → Ending

abbrev pub release_retry_ms : ℕ
release_retry_ms = invariants.send_release_retry_seconds * 1000

-- The pre-send flip of the ledger row, under the run's own claim and on a fresh clock.
unfoldable pub flip_guard : ℕ → ℕ → OutboundSend → Bool
flip_guard token at s =
    is_status claimed s
    && has_token token s
    && elim s.claim_expires_at [ none ↦ false | some e ↦ ltb at e ]

abbrev pub unchanged : OutboundSend → OutboundSend
unchanged s = s

abbrev pub store_draft_id : Option ℕ → OutboundSend → OutboundSend
store_draft_id created s = record s { provider_draft_id = or_else created s.provider_draft_id }

abbrev pub token_guard : ℕ → OutboundSend → Bool
token_guard token s = has_token token s

-- apps/worker/src/reauth-notify.ts
unfoldable pub notify_reauth_required : ℕ → ℕ → World → World
notify_reauth_required connection day w =
    then_page (insert_page none none (DedupeKey.reauth connection day) w)

module _ (to_iso_string : ℕ → List ℕ) (models : ModelSettings) (answers : Answers) where
  unfoldable pub completion_of : ClaimedSend → ℕ → CompleteSendInput
  completion_of c message_id = record {
    provider_message_id = message_id;
    rfc_message_id = answers.read_back;
    thread_snapshot_at = c.draft.thread_snapshot_at;
    ai_handled_month = c.ticket.ai_handled_month;
    billing_period_start = c.period_start;
    agent_id = c.send.agent_id;
    decision_source = c.draft.decision_source;
  }

  unfoldable pub finish_delivery : (ℕ → Ending) → ClaimedSend → Landing → ℕ → World → Ending × World
  finish_delivery ending c l message_id w =
      (ending message_id, complete_send to_iso_string models l (completion_of c message_id) w)

  -- Steps 9 to 11. The draft id of a two-phase provider is stored before its answer.
  unfoldable pub send_reply : ClaimedSend → Landing → Reply → World → Ending × World
  send_reply c l reply w =
      let w' = record w {
        replies = w.replies ++ reply ∷ [];
        sends =
            (update_row send_id l.send_id (token_guard c.claim_token)
              (store_draft_id answers.created_draft) w.sends).0;
      } in
      elim answers.send_reply [
        | accepted id ↦ finish_delivery delivered c l id w'
        | send_failure ↦ (threw send_error, collapse_claim_horizon l.send_id c.claim_token l.now w')
      ]

  -- Step 8, and what follows each of its verdicts.
  unfoldable pub flip_and_send : ClaimedSend → Landing → Reply → World → Ending × World
  flip_and_send c l reply w =
      let (sends, mine) =
        update_row send_id l.send_id (flip_guard c.claim_token answers.flip_at) unchanged w.sends in
      let (drafts, flipped) =
        update_row draft_id l.draft_id awaits_delivery (move_draft DraftStatus.sending) w.drafts in
      if not mine
      then (claim_lost, w)
      else if not flipped
      then (draft_gone, land_terminal l SendError.draft_not_approved false w)
      else send_reply c l reply (record w { sends = sends; drafts = drafts })

  -- The deadline of the job has passed: the send is due again at once.
  unfoldable pub unless_aborted : Bool → ClaimedSend → Landing → Reply → World → Ending × World
  unless_aborted true c l reply w = (
    aborted_before_send,
    (set_send_status l.send_id OutboundSendStatus.queued SendError.aborted_before_send (some l.now)
        w).1,
  )
  unless_aborted false c l reply w = flip_and_send c l reply w

  -- Step 7.
  unfoldable pub thread_and_send :
      ClaimedSend → Landing → Text → List Message → Option ℕ → World → Ending × World
  thread_and_send c l recipient thread none w =
      (terminal SendError.no_rfc_message_id, land_terminal l SendError.no_rfc_message_id true w)
  thread_and_send c l recipient thread (some in_reply_to) w =
      unless_aborted answers.aborted c l
        (record {
          thread_id = c.ticket.provider_thread_id;
          recipient = recipient;
          in_reply_to = in_reply_to;
          references =
              build_references (map (λ (m : Message). m.rfc_message_id) thread) in_reply_to;
          marker = c.draft.id;
        })
        w

  -- Step 6, once the customer's address is there.
  unfoldable pub answer_latest :
      ClaimedSend → Landing → Text → List Message → Option Message → World → Ending × World
  answer_latest c l recipient thread none w =
      (terminal SendError.no_inbound_message, land_terminal l SendError.no_inbound_message true w)
  answer_latest c l recipient thread (some latest) w =
      thread_and_send c l recipient thread (in_reply_to_of latest thread) w

  unfoldable pub pre_checks :
      ClaimedSend → Landing → Option Text → List Message → World → Ending × World
  unfolding find_last
  pre_checks c l none thread w =
      (terminal SendError.no_customer_email, land_terminal l SendError.no_customer_email true w)
  pre_checks c l (some recipient) thread w =
      answer_latest c l recipient thread (find_last is_inbound thread) w

  -- Step 5.
  unfoldable pub unless_stale : ClaimedSend → Landing → World → Ending × World
  unless_stale c l w =
      let thread = thread_of c.ticket.id w.messages in
      if has_newer_inbound c.draft.thread_snapshot_at thread
      then (stale, land_stale l w)
      else pre_checks c l c.ticket.customer_email thread w

  -- The scan found nothing: the deferred levers.
  unfoldable pub after_miss : ClaimedSend → Landing → Option KillLever → World → Ending × World
  after_miss c l (some lever) w = (held lever, land_held l lever w)
  after_miss c l none w = unless_stale c l w

  -- `queued`, due in 15 seconds.
  unfoldable pub release_for_retry : Landing → SendError → World → World
  release_for_retry l error w =
      (set_send_status l.send_id OutboundSendStatus.queued error (some (l.now + release_retry_ms))
        w).1

  -- Step 4: the recovery scan.
  unfoldable pub scan_first :
      ClaimedSend → Landing → Option KillLever → Scan → World → Ending × World
  scan_first c l lever (found id) w = finish_delivery recovered c l id w
  scan_first c l lever missed w = after_miss c l lever w
  scan_first c l lever gone w = after_miss c l lever w
  scan_first c l lever unverifiable w = (threw scan_error, release_for_retry l SendError.failure w)

  -- The credential died: a claim that may have delivered is released, any other is held.
  unfoldable pub reauth : ClaimedSend → Landing → World → Ending × World
  reauth c l w =
      let released =
        notify_reauth_required l.connection_id l.day
          (release_for_retry l SendError.delivery_unverified w) in
      let parked = notify_reauth_required l.connection_id l.day (
        audit_in Actor.send_execute AuditAction.send_held l.send_id (
          update_draft l.draft_id (draft_in DraftStatus.approved) (move_draft DraftStatus.held)
            (set_send_status l.send_id OutboundSendStatus.held SendError.reauth_required none
              w).1)) in
      if draft_in DraftStatus.sending c.draft
      then (threw auth_unverified, released)
      else (reauth_held, parked)

  -- Step 3.
  unfoldable pub with_credential :
      ClaimedSend → Landing → Option KillLever → Credential → World → Ending × World
  with_credential c l lever granted w = scan_first c l lever answers.scan w
  with_credential c l lever auth_error w = reauth c l w
  with_credential c l lever credential_failure w = (threw credential_error, w)

  unfoldable pub with_client :
      Bool → ClaimedSend → Landing → Option KillLever → World → Ending × World
  with_client false c l lever w = (threw no_oauth, w)
  with_client true c l lever w = with_credential c l lever answers.credential w

  unfoldable pub screened : Bool → ClaimedSend → Landing → Option KillLever → World → Ending × World
  screened false c l lever w =
      (terminal SendError.guardrail, land_terminal l SendError.guardrail true w)
  screened true c l lever w = with_client answers.has_oauth c l lever w

  -- Step 2, the guardrails' third pass, and the provider's client.
  unfoldable pub screen : ClaimedSend → Landing → Option KillLever → World → Ending × World
  screen c l lever w = screened answers.screened_ok c l lever w

  -- A lever holds an approved draft at once; for a `sending` draft it waits for the scan.
  unfoldable pub apply_lever : ClaimedSend → Landing → Option KillLever → World → Ending × World
  apply_lever c l none w = screen c l none w
  apply_lever c l (some lever) w =
      if draft_in DraftStatus.sending c.draft
      then screen c l (some lever) w
      else (held lever, land_held l lever w)

  unfoldable pub with_agent : ClaimedSend → Landing → World → Ending × World
  with_agent c l w =
      if not (awaits_delivery c.draft)
      then (
        terminal SendError.draft_not_approved,
        land_terminal l SendError.draft_not_approved false w,
      )
      else if not (is_some c.draft.final_body)
      then (terminal SendError.no_final_body, land_terminal l SendError.no_final_body true w)
      else apply_lever c l (first_kill_lever c) w

  unfoldable pub after_claim : ClaimedSend → Landing → World → Ending × World
  after_claim c l w =
      if is_some c.agent
      then with_agent c l w
      else (held KillLever.agent_inactive, land_held l KillLever.agent_inactive w)

  unfoldable pub landing_of : ℕ → ℕ → ℕ → ClaimedSend → Landing
  landing_of send now day c = record {
    send_id = send;
    draft_id = c.draft.id;
    ticket_id = c.ticket.id;
    connection_id = c.send.connection_id;
    ticket_status = c.ticket.status;
    now = now;
    day = day;
  }

  -- The catch around `afterClaim`.
  unfoldable pub collapse_on_throw : ClaimedSend → ℕ → Ending × World → Ending × World
  collapse_on_throw c send (threw e, w) =
      (threw e, collapse_claim_horizon send c.claim_token answers.failed_at w)
  collapse_on_throw c send (ending, w) = (ending, w)

  unfoldable pub run_claimed : ℕ → ℕ → ℕ → Option ClaimedSend × World → Ending × World
  run_claimed send now day (none, w) = (not_claimable, w)
  run_claimed send now day (some c, w) =
      collapse_on_throw c send (after_claim c (landing_of send now day c) w)

  abbrev pub run_or_throw :
      ℕ → ℕ → ℕ → World → ClaimError ⊎ (Option ClaimedSend × World) → Ending × World
  run_or_throw send now day w (inl e) = (threw (claim_error e), w)
  run_or_throw send now day w (inr r) = run_claimed send now day r

  unfoldable pub execute : (ℕ → Period) → Settings → ℕ → ℕ → ℕ → ℕ → World → Ending × World
  execute month_of settings send token now day w =
      run_or_throw send now day w (claim_send month_of settings send token now w)

  -- Step 12, on the last attempt.
  unfoldable pub dead_letter_on_throw : Bool → ℕ → ℕ → Ending × World → Ending × World
  dead_letter_on_throw last_attempt send day (threw e, w) =
      (threw e, if last_attempt then land_dead_letter send day answers.failed_at w else w)
  dead_letter_on_throw last_attempt send day (ending, w) = (ending, w)

  -- `day` is the UTC day of the run; a dead letter takes the day of its own clock.
  unfoldable pub run_send_execute :
      (ℕ → Period) → Settings → Bool → ℕ → ℕ → ℕ → ℕ → ℕ → World → Ending × World
  run_send_execute month_of settings last_attempt send token now day failed_day w =
      dead_letter_on_throw last_attempt send failed_day
        (execute month_of settings send token now day w)
