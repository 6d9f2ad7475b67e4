-- ===== src/Worker/Send/Delivery/Once.antt =====
-- apps/worker/src/jobs/send-execute.ts: every sequence of the steps on a send, from a mailbox without
-- its reply.
use ai_email_support_agent.Base.{
  ℕ, suc, ◌<◌, ◌≤◌, ◌≡◌, refl, Bool, true, false, not, Option, some, none, ◌||◌, ltb, arith,
}
use ai_email_support_agent.Core.Transitions.{
  DraftStatus, draft_eq, OutboundSendStatus, queued, claimed, sent,
}
use ai_email_support_agent.Db.Drafts.{OutboundSend, SendError}
use ai_email_support_agent.Worker.Send.{is_status, claim_set}
use ai_email_support_agent.Worker.Send.Land.{not_sent, released, collapse_guard, collapse_set}
use ai_email_support_agent.Worker.Send.Delivery.{
  idle, Line, release_row, collapse_row, hold_row, requeue, is_released, RunStep, claim,
  scan_missed, recover, land, release, lose_claim, flip, deliver, complete, fail_call, dead_letter,
  OwnerStep, hold, approve, resume, reject, retire, Step, tick, by_run, by_owner, Steps, done, more,
  RunRelied, Relied, AllRelied,
}
use ai_email_support_agent.Worker.Send.Delivery.Inv.{Inv, paired, tick-Inv}
use ai_email_support_agent.Worker.Send.Delivery.Landings.{
  pending-parked, parking-released, land-Inv, release-Inv, complete-Inv, fail_call-Inv,
  lose_claim-Inv, dead_letter-Inv, hold-Inv, approve-Inv, resume-Inv, reject-Inv, retire-Inv,
}
use ai_email_support_agent.Worker.Send.Delivery.Claims.{
  claim-Inv, scan_missed-Inv, flip-Inv, deliver-Inv,
}

run-Inv : (s t : Line) (step : RunStep s t) → RunRelied s t step → Inv s → Inv t
run-Inv s _ (claim k i g) r v = claim-Inv s k g v
run-Inv s _ (scan_missed k e h) z v = scan_missed-Inv s k e h z v
run-Inv s _ (recover k e h) d v = complete-Inv s k d v
run-Inv s _ (land k status error after draft b m r) o v =
    land-Inv s k status error after draft o m r v
run-Inv s _ (release k status error after b m) o v = release-Inv s k status error after o m v
run-Inv s _ (lose_claim k e h) r v = lose_claim-Inv s k v
run-Inv s _ (flip k e h g a) r v = flip-Inv s k e h g a v
run-Inv s _ (deliver k e h) l v = deliver-Inv s k e h l v
run-Inv s _ (complete k e h) r v = complete-Inv s k (v.handed_over k e h) v
run-Inv s _ (fail_call k h) r v = fail_call-Inv s k v
run-Inv s _ (dead_letter error) n v = dead_letter-Inv s error n v

owner-Inv : (s t : Line) → OwnerStep s t → Inv s → Inv t
owner-Inv s _ (hold q a) v = hold-Inv s q a v
owner-Inv s _ (approve send_after p q) v = approve-Inv s send_after p q v
owner-Inv s _ (resume r) v = resume-Inv s r v
owner-Inv s _ (reject p) v = reject-Inv s p v
owner-Inv s _ (retire status error a r) v = retire-Inv s status error a r v

step-Inv : (s t : Line) (step : Step s t) → Relied s t step → Inv s → Inv t
step-Inv s _ (tick n) r v = tick-Inv s n v
step-Inv s t (by_run step) r v = run-Inv s t step r v
step-Inv s t (by_owner step) r v = owner-Inv s t step v

-- No run is at work, and nothing was delivered.
start-Inv :
    (s : Line)
    → ((k : ℕ) → s.phase k ≡ idle)
    → s.delivered ≡ 0
    → paired s.send s.draft ≡ true
    → Inv s
start-Inv s i z b = record {
  fly_delivered = λ k e h l. z;
  fly_owns = λ k e h l. let j = i k in absurd (cc);
  fly_draft = λ k e h l. let j = i k in absurd (cc);
  own = λ k l. let l' : false ≡ true = rw (i k) at l in absurd (cc);
  expiry = λ k e h o. let h' : none ≡ some e = rw (i k) at h in absurd (cc);
  missed = λ k e h l o. z;
  handed_over = λ k e h. let j = i k in absurd (cc);
  once = omega arith;
  pair = b;
}

reach-Inv :
    (s t : Line)
    → ((k : ℕ) → s.phase k ≡ idle)
    → s.delivered ≡ 0
    → paired s.send s.draft ≡ true
    → (path : Steps s t) → AllRelied s t path
    → Inv t
reach-Inv s _ i z b done r = start-Inv s i z b
reach-Inv s t i z b (more {t = u} path step) r =
    step-Inv u t step r.1 (reach-Inv s u i z b path r.0)

-- From a mailbox that holds no copy of the reply, with no run at work and a send that is not on its way
-- beside a draft that waits for the owner: whatever claims, crashes, retries, landings, undos, approvals,
-- rejections and retirements follow, in any order, the mailbox never holds two copies, on every path on
-- which a scan finds what was delivered and nothing else, a run lands, and its call delivers, only before
-- its claim expires, and a dead letter is written while no run's claim is live.
pub delivered_at_most_once :
    (s t : Line)
    → ((k : ℕ) → s.phase k ≡ idle)
    → s.delivered ≡ 0
    → paired s.send s.draft ≡ true
    → (path : Steps s t) → AllRelied s t path
    → t.delivered ≤ 1
delivered_at_most_once s t i z b path r = (reach-Inv s t i z b path r).once

abbrev honest : Line → Bool
honest s = not (is_status sent s.send) || ltb 0 s.delivered

module _ (d : ℕ) (r : OutboundSend) (h : (not (is_status sent r) || ltb 0 d) ≡ true) where
  claim_set-honest : (k now : ℕ) → (not (is_status sent (claim_set k now r)) || ltb 0 d) ≡ true
  unfolding claim_set
  claim_set-honest k now = ground arith

  release_row-honest :
      (status : OutboundSendStatus) (error : SendError) (after : Option ℕ)
      → is_released status ≡ true
      → (not (is_status sent (release_row status error after r)) || ltb 0 d) ≡ true
  unfolding release_row not_sent released
  release_row-honest status error after m = ground arith

  collapse_row-honest :
      (k now : ℕ) → (not (is_status sent (collapse_row k now r)) || ltb 0 d) ≡ true
  unfolding collapse_row collapse_guard collapse_set
  collapse_row-honest k now = ground arith

  hold_row-honest :
      (error : Option SendError) → (not (is_status sent (hold_row error r)) || ltb 0 d) ≡ true
  unfolding hold_row
  hold_row-honest error = ground arith

delivered-honest : (d : ℕ) (b : Bool) → 0 < d → (not b || ltb 0 d) ≡ true
delivered-honest d b p = ground arith

run-honest :
    (s t : Line) (step : RunStep s t)
    → RunRelied s t step
    → Inv s
    → honest s ≡ true
    → honest t ≡ true
run-honest s _ (claim k i g) r v h = claim_set-honest s.delivered s.send h k s.clock
run-honest s _ (scan_missed k e p) r v h = h
run-honest s _ (recover k e p) d v h = delivered-honest s.delivered _ d
run-honest s _ (land k status error after draft b m q) r v h =
    release_row-honest s.delivered s.send h status error after (parking-released status m)
run-honest s _ (release k status error after b m) r v h =
    release_row-honest s.delivered s.send h status error after m
run-honest s _ (lose_claim k e p) r v h = h
run-honest s _ (flip k e p g a) r v h = h
run-honest s _ (deliver k e p) l v h = delivered-honest (suc s.delivered) _ (omega arith)
run-honest s _ (complete k e p) r v h = delivered-honest s.delivered _ (v.handed_over k e p)
run-honest s _ (fail_call k p) r v h = collapse_row-honest s.delivered s.send h k s.clock
run-honest s _ (dead_letter error) n v h =
    release_row-honest s.delivered s.send h OutboundSendStatus.failed error none refl

owner-honest : (s t : Line) → OwnerStep s t → honest s ≡ true → honest t ≡ true
unfolding requeue
owner-honest s _ (hold q a) h = hold_row-honest s.delivered s.send h s.send.last_error
owner-honest s _ (approve send_after p q) h = refl
owner-honest s _ (resume r) h = h
owner-honest s _ (reject p) h = h
owner-honest s _ (retire status error a r) h = hold_row-honest s.delivered s.send h (some error)

step-honest :
    (s t : Line) (step : Step s t) → Relied s t step → Inv s → honest s ≡ true → honest t ≡ true
step-honest s _ (tick n) r v h = h
step-honest s t (by_run step) r v h = run-honest s t step r v h
step-honest s t (by_owner step) r v h = owner-honest s t step h

reach-honest :
    (s t : Line)
    → ((k : ℕ) → s.phase k ≡ idle)
    → s.delivered ≡ 0
    → paired s.send s.draft ≡ true
    → is_status sent s.send ≡ false
    → (path : Steps s t) → AllRelied s t path
    → honest t ≡ true
reach-honest s _ i z b n done r = rw n refl
reach-honest s t i z b n (more {t = u} path step) r =
    step-honest u t step r.1 (reach-Inv s u i z b path r.0) (reach-honest s u i z b n path r.0)

-- From a send that is not `sent`, nor on its way beside a draft that waits for the owner, with no run at
-- work and no copy of its reply in the mailbox: whenever the ledger says `sent`, after any sequence of
-- steps, the mailbox holds exactly one copy; on every path on which a scan finds what was delivered and
-- nothing else, a run lands, and its call delivers, only before its claim expires, and a dead letter is
-- written while no run's claim is live.
pub sent_delivered_once :
    (s t : Line)
    → ((k : ℕ) → s.phase k ≡ idle)
    → s.delivered ≡ 0
    → paired s.send s.draft ≡ true
    → is_status sent s.send ≡ false
    → (path : Steps s t) → AllRelied s t path
    → is_status sent t.send ≡ true
    → t.delivered ≡ 1
sent_delivered_once s t i z b n path r e =
    let v = reach-Inv s t i z b path r in
    let h = reach-honest s t i z b n path r in ground (arith, v.once, h, e)

-- From a mailbox that holds no copy of the reply, with no run at work and a send that is not on its way
-- beside a draft that waits for the owner: after any sequence of steps, while a draft waits for the owner
-- its send is neither queued nor claimed; on every path on which a scan finds what was delivered and
-- nothing else, a run lands, and its call delivers, only before its claim expires, and a dead letter is
-- written while no run's claim is live.
pub pending_send_parked :
    (s t : Line)
    → ((k : ℕ) → s.phase k ≡ idle)
    → s.delivered ≡ 0
    → paired s.send s.draft ≡ true
    → (path : Steps s t) → AllRelied s t path
    → draft_eq t.draft DraftStatus.pending ≡ true
    → (is_status queued t.send || is_status claimed t.send) ≡ false
pending_send_parked s t i z b path r p =
    pending-parked t.send t.draft p (reach-Inv s t i z b path r).pair
