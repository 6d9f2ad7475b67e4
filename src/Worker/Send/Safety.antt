-- ===== src/Worker/Send/Safety.antt =====
-- apps/worker/src/jobs/send-execute.ts: what a run can never undo, and who may claim a send.
use ai_email_support_agent.Base.{
  ℕ, ◌+◌, ◌*◌, ◌≤◌, ◌≡◌, refl, ◌∙◌, Bool, true, false, Option, none, some, List, ◌==◌, ◌&&◌, leb,
  arith, find_row, hits, update_row-keeps, find_row-update_ne,
}
use ai_email_support_agent.Core.Transitions.{sent, queued}
use ai_email_support_agent.Core.Billing.{Period}
use ai_email_support_agent.Core.Redraft.{invariants}
use ai_email_support_agent.Db.Drafts.{OutboundSend, SendError}
use ai_email_support_agent.Db.Sends.{World, send_id}
use ai_email_support_agent.Worker.Send.{
  Settings, is_status, claim_guard, claim_set, send_claim_horizon_seconds,
}
use ai_email_support_agent.Worker.Send.Land.{not_sent, released, collapse_guard, collapse_set}
use ai_email_support_agent.Worker.Send.Complete.{ModelSettings, complete_set}
use ai_email_support_agent.Worker.Send.Run.{Answers, run_send_execute, release_retry_ms}
use ai_email_support_agent.Worker.Send.Touched.{
  Write, claims, releases, collapses, flips, stores, completes, Touched, untouched, touch,
  run_send_execute-After,
}

abbrev pub has_message : ℕ → Option ℕ → Bool
has_message m none = false
has_message m (some x) = x == m

-- The row says that the reply went out as this message of the provider.
abbrev pub sent_as : ℕ → OutboundSend → Bool
sent_as m s = is_status sent s && has_message m s.provider_message_id

Write-id :
    {guard : OutboundSend → Bool} {set : OutboundSend → OutboundSend} (t : OutboundSend)
    → Write guard set
    → (set t).id ≡ t.id
unfolding claim_set released collapse_set complete_set
Write-id t (claims token now) = refl
Write-id t (releases status error after) = refl
Write-id t (collapses token now) = refl
Write-id t (flips token at) = refl
Write-id t (stores token created) = refl
Write-id t (completes l input) = refl

Write-sent_as :
    (m : ℕ) {guard : OutboundSend → Bool} {set : OutboundSend → OutboundSend} (t : OutboundSend)
    → Write guard set
    → sent_as m t ≡ true
    → guard t ≡ true
    → sent_as m (set t) ≡ true
unfolding claim_guard claim_set not_sent released collapse_guard collapse_set complete_set
Write-sent_as m t (claims token now) h g = ground arith
Write-sent_as m t (releases status error after) h g = ground arith
Write-sent_as m t (collapses token now) h g = ground arith
Write-sent_as m t (flips token at) h g = h
Write-sent_as m t (stores token created) h g = h
Write-sent_as m t (completes l input) h g = ground arith

Touched-sent_as :
    (j m send : ℕ) (xs ys : List OutboundSend)
    → Touched send xs ys
    → hits (sent_as m) (find_row send_id j xs) ≡ true
    → hits (sent_as m) (find_row send_id j ys) ≡ true
Touched-sent_as j m send xs _ untouched h = h
Touched-sent_as j m send xs _ (touch {ys = ys} {guard = guard} {set = set} t w) h =
    update_row-keeps send_id guard set (λ r. Write-id r w) (sent_as m) (λ r. Write-sent_as m r w) j
      send ys (Touched-sent_as j m send xs ys t h)

Touched-others :
    (j send : ℕ) (xs ys : List OutboundSend)
    → (j == send) ≡ false
    → Touched send xs ys
    → find_row send_id j ys ≡ find_row send_id j xs
Touched-others j send xs _ ne untouched = refl
Touched-others j send xs _ ne (touch {ys = ys} {guard = guard} {set = set} t w) =
    find_row-update_ne send_id guard set (λ r. Write-id r w) j send ys ne
    ∙ Touched-others j send xs ys ne t

module _ (to_iso_string : ℕ → List ℕ) (models : ModelSettings) (answers : Answers)
    (month_of : ℕ → Period) (settings : Settings) (last_attempt : Bool)
    (send token now day failed_day : ℕ) (w : World) where
  -- A send that is `sent` as a message stays so through any run of any send's job, whatever the
  -- guardrails, the credential, the scan, the provider and the clock answer, its dead letter included.
  pub run_send_execute-sent_stays :
      (j m : ℕ)
      → hits (sent_as m) (find_row send_id j w.sends) ≡ true
      → hits (sent_as m) (
          find_row send_id j
            (run_send_execute to_iso_string models answers month_of settings last_attempt send token
              now day failed_day w).1.sends)
        ≡ true
  run_send_execute-sent_stays j m h =
      Touched-sent_as j m send w.sends _
        (run_send_execute-After to_iso_string models answers month_of settings last_attempt send
          token now day failed_day w)
        h

  -- A run of one send's job leaves the ledger row of every other send as it was.
  pub run_send_execute-others :
      (j : ℕ)
      → (j == send) ≡ false
      → find_row send_id j
          (run_send_execute to_iso_string models answers month_of settings last_attempt send token
            now day failed_day w).1.sends
        ≡ find_row send_id j w.sends
  run_send_execute-others j ne = Touched-others j send w.sends _ ne (
      run_send_execute-After to_iso_string models answers month_of settings last_attempt send token
        now day failed_day w)

-- Once a send is claimed, no second claim succeeds before the horizon of 600 seconds, and from then on
-- any does: a crashed run's send can be claimed again.
pub claim_guard-horizon :
    (token now later : ℕ) (s : OutboundSend)
    → now ≤ later
    → s.send_after ≤ now
    → claim_guard later (claim_set token now s)
      ≡ leb (now + send_claim_horizon_seconds * 1000) later
unfolding claim_guard claim_set
claim_guard-horizon token now later s h d = ground arith

-- After a failed call the run collapses its claim: the row can be claimed at that very instant, if it
-- was claimed by this run, and was due.
pub collapse-claimable :
    (token now : ℕ) (s : OutboundSend)
    → collapse_guard token s ≡ true
    → s.send_after ≤ now
    → claim_guard now (collapse_set now s) ≡ true
unfolding claim_guard collapse_guard collapse_set
collapse-claimable token now s g d = ground arith

-- A send that is released for a retry can be claimed again at any instant from which the queue may
-- retry the job, SEND_RETRY_DELAY_SECONDS after the run's clock at the earliest.
pub released-claimable :
    (now later : ℕ) (error : SendError) (s : OutboundSend)
    → now + invariants.send_retry_delay_seconds * 1000 ≤ later
    → claim_guard later (released queued error (some (now + release_retry_ms)) s) ≡ true
unfolding claim_guard released
released-claimable now later error s h = ground arith
