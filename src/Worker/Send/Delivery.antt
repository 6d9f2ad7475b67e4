-- ===== src/Worker/Send/Delivery.antt =====
-- apps/worker/src/jobs/send-execute.ts beside apps/api/src/drafts/service.ts: the steps that the runs of
-- one send's job, the owner and a newer draft take on the send, its draft and the mailbox, in any order.
-- A run is known by its claim token; one that crashed takes no further step. A step has the guards of
-- its statement and no other: a run that outlived its claim still lands, releases and delivers. `Relied`
-- says apart what the design relies on at a step, of the clock and of the mailbox.
pub mod Inv
mod Rows
mod Landings
mod Claims
pub mod Once
use ai_email_support_agent.Base.{
  ℕ, suc, ◌+◌, ◌*◌, ◌<◌, ◌≡◌, Bool, true, false, not, Option, none, some, ◌==◌, ◌&&◌, ◌||◌, ltb,
  if◌then◌else◌,
}
use ai_email_support_agent.Core.Transitions.{
  DraftStatus, draft_eq, OutboundSendStatus, queued, claimed, sent, outbound_can,
}
use ai_email_support_agent.Db.Drafts.{OutboundSend, SendError}
use ai_email_support_agent.Worker.Send.{
  claim_guard, claim_set, is_status, send_claim_horizon_seconds,
}
use ai_email_support_agent.Worker.Send.Land.{
  not_sent, released, collapse_guard, collapse_set, has_token,
}
use ai_email_support_agent.Worker.Send.Run.{flip_guard}

-- Where a run stands, with the expiry of its claim.
pub data Phase : Type 0 where
  idle : Phase
  scanning scanned flying handed : ℕ → Phase

pub record Line : Type 0 where
  pub send : OutboundSend
  pub draft : DraftStatus
  pub clock : ℕ
  pub delivered : ℕ
  pub phase : ℕ → Phase

abbrev pub put : ℕ → Phase → (ℕ → Phase) → ℕ → Phase
put k p f j = if j == k then p else f j

-- A run that may still land or deliver.
abbrev pub live : ℕ → Phase → Bool
live clock (scanning e) = ltb clock e
live clock (scanned e) = ltb clock e
live clock (flying e) = ltb clock e
live clock _ = false

-- A run that has not called the provider.
abbrev pub is_before_call : Phase → Bool
is_before_call (scanning e) = true
is_before_call (scanned e) = true
is_before_call _ = false

abbrev pub before_flip : ℕ → Phase → Bool
before_flip clock (scanning e) = ltb clock e
before_flip clock (scanned e) = ltb clock e
before_flip clock _ = false

abbrev pub after_call : Phase → Bool
after_call (flying e) = true
after_call (handed e) = true
after_call _ = false

unfoldable pub awaiting : DraftStatus → Bool
awaiting d = draft_eq d DraftStatus.approved || draft_eq d DraftStatus.sending

unfoldable pub release_row : OutboundSendStatus → SendError → Option ℕ → OutboundSend → OutboundSend
release_row status error send_after s = if not_sent s then released status error send_after s else s

unfoldable pub walk_back : DraftStatus → DraftStatus → DraftStatus
walk_back status d = if awaiting d then status else d

-- A landing that meets a `sent` row writes nothing.
unfoldable pub land_draft : DraftStatus → OutboundSend → DraftStatus → DraftStatus
land_draft status r d = if not_sent r then walk_back status d else d

unfoldable pub complete_row : ℕ → OutboundSend → OutboundSend
complete_row now s =
    if is_status claimed s
    then record s { status = sent; sent_at = some now; last_error = none; claim_expires_at = none }
    else s

unfoldable pub collapse_row : ℕ → ℕ → OutboundSend → OutboundSend
collapse_row token now s = if collapse_guard token s then collapse_set now s else s

abbrev pub is_retirable : DraftStatus → Bool
is_retirable DraftStatus.pending = true
is_retirable DraftStatus.approved = true
is_retirable DraftStatus.held = true
is_retirable _ = false

abbrev pub is_retired : DraftStatus → Bool
is_retired DraftStatus.rejected = true
is_retired DraftStatus.superseded = true
is_retired DraftStatus.expired = true
is_retired _ = false

abbrev pub is_resumable : DraftStatus → Bool
is_resumable DraftStatus.held = true
is_resumable DraftStatus.failed = true
is_resumable _ = false

-- The statuses that `setSendStatus` writes.
abbrev pub is_released : OutboundSendStatus → Bool
is_released OutboundSendStatus.held = true
is_released OutboundSendStatus.failed = true
is_released queued = true
is_released _ = false

abbrev pub is_parking : OutboundSendStatus → Bool
is_parking OutboundSendStatus.held = true
is_parking OutboundSendStatus.failed = true
is_parking _ = false

-- REQUEUEABLE_SEND_STATUSES, from the matrix: it has `claimed` too.
unfoldable pub is_requeueable : OutboundSendStatus → Bool
is_requeueable status = outbound_can status queued

unfoldable pub hold_row : Option SendError → OutboundSend → OutboundSend
hold_row error s =
    if is_status queued s || is_status claimed s
    then record s { status = OutboundSendStatus.held; last_error = error }
    else s

-- approveDraft's upsert on the row that is there.
unfoldable pub requeue : ℕ → OutboundSend → OutboundSend
requeue send_after s = record s {
  status = queued;
  send_after = send_after;
  attempts = 0;
  claimed_at = none;
  claim_expires_at = none;
  claim_token = none;
  last_error = none;
}

-- One transaction, or one call of the provider, of a run.
pub data RunStep : Line → Line → Type 0 where
  claim :
      {s : Line} (k : ℕ)
      → s.phase k ≡ idle
      → claim_guard s.clock s.send ≡ true
      → RunStep s (record s {
        send = claim_set k s.clock s.send;
        phase = put k (scanning (s.clock + send_claim_horizon_seconds * 1000)) s.phase;
      })
  scan_missed :
      {s : Line} (k e : ℕ)
      → s.phase k ≡ scanning e
      → RunStep s (record s { phase = put k (scanned e) s.phase })
  recover :
      {s : Line} (k e : ℕ)
      → s.phase k ≡ scanning e
      → RunStep s (record s {
        send = complete_row s.clock s.send;
        draft = walk_back DraftStatus.sent s.draft;
        phase = put k idle s.phase;
      })
  land :
      {s : Line} (k : ℕ) (status : OutboundSendStatus) (error : SendError) (after : Option ℕ)
      (draft : DraftStatus)
      → is_before_call (s.phase k) ≡ true
      → is_parking status ≡ true
      → is_resumable draft ≡ true
      → RunStep s (record s {
        send = release_row status error after s.send;
        draft = land_draft draft s.send s.draft;
        phase = put k idle s.phase;
      })
  release :
      {s : Line} (k : ℕ) (status : OutboundSendStatus) (error : SendError) (after : Option ℕ)
      → is_before_call (s.phase k) ≡ true
      → is_released status ≡ true
      → RunStep s
          (record s { send = release_row status error after s.send; phase = put k idle s.phase })
  lose_claim :
      {s : Line} (k e : ℕ)
      → s.phase k ≡ scanned e
      → RunStep s (record s { phase = put k idle s.phase })
  flip :
      {s : Line} (k e : ℕ)
      → s.phase k ≡ scanned e
      → flip_guard k s.clock s.send ≡ true
      → awaiting s.draft ≡ true
      → RunStep s (record s { draft = DraftStatus.sending; phase = put k (flying e) s.phase })
  deliver :
      {s : Line} (k e : ℕ)
      → s.phase k ≡ flying e
      → RunStep s (record s { delivered = suc s.delivered; phase = put k (handed e) s.phase })
  complete :
      {s : Line} (k e : ℕ)
      → s.phase k ≡ handed e
      → RunStep s (record s {
        send = complete_row s.clock s.send;
        draft = walk_back DraftStatus.sent s.draft;
        phase = put k idle s.phase;
      })
  fail_call :
      {s : Line} (k : ℕ)
      → after_call (s.phase k) ≡ true
      → RunStep s (record s { send = collapse_row k s.clock s.send; phase = put k idle s.phase })
  dead_letter :
      {s : Line} (error : SendError)
      → RunStep s (record s {
        send = release_row OutboundSendStatus.failed error none s.send;
        draft = land_draft DraftStatus.failed s.send s.draft;
      })

-- Undo, approve, "Back to review", reject, and the retirement by "Mark resolved" or by a newer draft.
pub data OwnerStep : Line → Line → Type 0 where
  hold :
      {s : Line}
      → is_status queued s.send ≡ true
      → draft_eq s.draft DraftStatus.approved ≡ true
      → OwnerStep s
          (record s { send = hold_row s.send.last_error s.send; draft = DraftStatus.pending })
  approve :
      {s : Line} (send_after : ℕ)
      → draft_eq s.draft DraftStatus.pending ≡ true
      → is_requeueable s.send.status ≡ true
      → OwnerStep s (record s { send = requeue send_after s.send; draft = DraftStatus.approved })
  resume :
      {s : Line}
      → is_resumable s.draft ≡ true
      → OwnerStep s (record s { draft = DraftStatus.pending })
  reject :
      {s : Line}
      → draft_eq s.draft DraftStatus.pending ≡ true
      → OwnerStep s (record s { draft = DraftStatus.rejected })
  retire :
      {s : Line} (status : DraftStatus) (error : SendError)
      → is_retirable s.draft ≡ true
      → is_retired status ≡ true
      → OwnerStep s (record s { send = hold_row (some error) s.send; draft = status })

pub data Step : Line → Line → Type 0 where
  tick : {s : Line} (n : ℕ) → Step s (record s { clock = s.clock + n })
  by_run : {s t : Line} → RunStep s t → Step s t
  by_owner : {s t : Line} → OwnerStep s t → Step s t

pub data Steps : Line → Line → Type 0 where
  done : {s : Line} → Steps s s
  more : {s t u : Line} → Steps s t → Step t u → Steps s u

-- A scan finds the marker of what was delivered, and no other; a run lands, and its call delivers, before
-- its claim expires; a dead letter is written while no other run's claim is live.
abbrev pub RunRelied : (s t : Line) → RunStep s t → Type 0
RunRelied s _ (scan_missed k e h) = s.delivered ≡ 0
RunRelied s _ (recover k e h) = 0 < s.delivered
RunRelied s _ (land k status error after draft b m r) = before_flip s.clock (s.phase k) ≡ true
RunRelied s _ (release k status error after b m) = before_flip s.clock (s.phase k) ≡ true
RunRelied s _ (deliver k e h) = s.clock < e
RunRelied s _ (dead_letter error) = (k : ℕ) → live s.clock (s.phase k) ≡ false
RunRelied s _ (claim k i g) = Unit
RunRelied s _ (lose_claim k e h) = Unit
RunRelied s _ (flip k e h g a) = Unit
RunRelied s _ (complete k e h) = Unit
RunRelied s _ (fail_call k h) = Unit

abbrev pub Relied : (s t : Line) → Step s t → Type 0
Relied s _ (tick n) = Unit
Relied s t (by_run step) = RunRelied s t step
Relied s t (by_owner step) = Unit

abbrev pub AllRelied : (s t : Line) → Steps s t → Type 0
AllRelied s _ done = Unit
AllRelied s t (more {t = u} path step) = AllRelied s u path × Relied u t step

-- A reply is owed, then kept; `broken` is a second copy. Rows, claims and runs are forgotten.
pub data Promise : Type 0 where
  owed kept broken : Promise

pub data Spec : Promise → Promise → Type 0 where
  stay_owed : Spec owed owed
  keep : Spec owed kept
  stay_kept : Spec kept kept

unfoldable pub view : ℕ → Promise
view n = if n == 0 then owed else if n == 1 then kept else broken
