-- ===== src/Worker/Send/Delivery/Rows.antt =====
-- apps/worker/src/jobs/send-execute.ts: what the writes to the send's row leave of its claim.
use ai_email_support_agent.Base.{
  ℕ, ◌<◌, ◌≡◌, refl, Bool, true, false, not, Option, ◌⊎◌, inl, inr, ◌==◌, ◌||◌, arith, ltb→lt,
  Bool-cases,
}
use ai_email_support_agent.Core.Transitions.{DraftStatus, OutboundSendStatus, claimed, sent}
use ai_email_support_agent.Db.Drafts.{OutboundSend, SendError}
use ai_email_support_agent.Worker.Send.{is_status}
use ai_email_support_agent.Worker.Send.Land.{not_sent, released, collapse_guard, collapse_set}
use ai_email_support_agent.Worker.Send.Delivery.{
  Phase, idle, scanning, scanned, flying, handed, Line, put, live, before_flip, awaiting,
  release_row, walk_back, complete_row, collapse_row, is_retired, is_resumable, is_released,
  is_parking, hold_row, land_draft,
}
use ai_email_support_agent.Worker.Send.Delivery.Inv.{
  paired, quiet, Inv, is_flying, flying-eq, same_token, flying-loud,
}

pub before_flip-live : (c : ℕ) (p : Phase) → before_flip c p ≡ true → live c p ≡ true
before_flip-live c idle h = absurd (cc)
before_flip-live c (scanning e) h = h
before_flip-live c (scanned e) h = h
before_flip-live c (flying e) h = absurd (cc)
before_flip-live c (handed e) h = absurd (cc)

before_flip-grounded : (c : ℕ) (p : Phase) → before_flip c p ≡ true → is_flying p ≡ false
before_flip-grounded c idle h = refl
before_flip-grounded c (scanning e) h = refl
before_flip-grounded c (scanned e) h = refl
before_flip-grounded c (flying e) h = absurd (cc)
before_flip-grounded c (handed e) h = refl

pub live-flying : (c e : ℕ) (p : Phase) → p ≡ flying e → live c p ≡ true → c < e
live-flying c e p h l = let l' = rw h at l in ltb→lt c e l'

-- A settled send has no call that may deliver.
pub quiet-grounded :
    (s : Line) (j : ℕ)
    → Inv s
    → live s.clock (s.phase j) ≡ true
    → quiet s ≡ true
    → is_flying (s.phase j) ≡ false
quiet-grounded s j v l q = elim (Bool-cases (is_flying (s.phase j))) [
  | inr g ↦ g
  | inl f ↦
      let (e, p) = flying-eq (s.phase j) f in
      absurd (flying-loud s v j e p (live-flying s.clock e (s.phase j) p l) q)
]

-- A run before its flip shares the send with no live run, unless the send is settled.
pub alone :
    (s : Line) (k j : ℕ)
    → Inv s
    → live s.clock (s.phase k) ≡ true
    → live s.clock (s.phase j) ≡ true
    → (j == k) ≡ false
    → quiet s ≡ true
alone s k j v lk lj ne = elim (v.own k lk) [
  | inr q ↦ q
  | inl ok ↦ elim (v.own j lj) [
    | inr q ↦ q
    | inl oj ↦ let e = same_token j k s.send oj ok in absurd (cc)
  ]
]

abbrev pub all_but : ℕ → ℕ → Bool
all_but k j = not (j == k)

pub put-ends :
    (s : Line) (k j : ℕ)
    → (put k idle s.phase j ≡ idle) ⊎ ((all_but k j ≡ true) × (put k idle s.phase j ≡ s.phase j))
put-ends s k j = elim (Bool-cases (j == k)) [
  | inl here ↦ inl (rw here refl)
  | inr there ↦ inr (rw there refl, rw there refl)
]

pub all_but-ne : (k j : ℕ) → all_but k j ≡ true → (j == k) ≡ false
all_but-ne k j h = ground arith

pub release_row-weaker :
    (status : OutboundSendStatus) (error : SendError) (after : Option ℕ) (r : OutboundSend) (j : ℕ)
    → is_released status ≡ true
    → collapse_guard j (release_row status error after r) ≡ true
    → (collapse_guard j r ≡ true)
      × ((release_row status error after r).claim_expires_at ≡ r.claim_expires_at)
unfolding release_row not_sent released collapse_guard
release_row-weaker status error after r j m h = ground arith

pub complete_row-weaker :
    (now : ℕ) (r : OutboundSend) (j : ℕ)
    → collapse_guard j (complete_row now r) ≡ true
    → (collapse_guard j r ≡ true) × ((complete_row now r).claim_expires_at ≡ r.claim_expires_at)
unfolding complete_row collapse_guard
complete_row-weaker now r j h = ground arith

pub collapse_row-weaker :
    (k now : ℕ) (r : OutboundSend) (j : ℕ)
    → (j == k) ≡ false
    → collapse_guard j (collapse_row k now r) ≡ true
    → (collapse_guard j r ≡ true) × ((collapse_row k now r).claim_expires_at ≡ r.claim_expires_at)
unfolding collapse_row collapse_set collapse_guard
collapse_row-weaker k now r j ne h = ground arith

pub hold_row-weaker :
    (error : Option SendError) (r : OutboundSend) (j : ℕ)
    → collapse_guard j (hold_row error r) ≡ true
    → (collapse_guard j r ≡ true) × ((hold_row error r).claim_expires_at ≡ r.claim_expires_at)
unfolding hold_row collapse_guard
hold_row-weaker error r j h = ground arith

pub release_row-quiet :
    (status : OutboundSendStatus) (error : SendError) (after : Option ℕ) (r : OutboundSend)
    (draft d : DraftStatus)
    → (is_status sent r || is_retired d) ≡ true
    → (is_status sent (release_row status error after r) || is_retired (land_draft draft r d))
      ≡ true
unfolding land_draft release_row not_sent released walk_back awaiting
release_row-quiet status error after r draft d q = ground arith

pub release_row-quiet_same :
    (status : OutboundSendStatus) (error : SendError) (after : Option ℕ) (r : OutboundSend)
    (d : DraftStatus)
    → (is_status sent r || is_retired d) ≡ true
    → (is_status sent (release_row status error after r) || is_retired d) ≡ true
unfolding release_row not_sent released
release_row-quiet_same status error after r d q = ground arith

-- The pairing after each write.
pub release_row-paired :
    (status : OutboundSendStatus) (error : SendError) (after : Option ℕ) (r : OutboundSend)
    (draft d : DraftStatus)
    → is_parking status ≡ true
    → paired (release_row status error after r) (land_draft draft r d) ≡ true
unfolding land_draft walk_back release_row not_sent released
release_row-paired status error after r draft d m = ground arith

pub release_row-paired_same :
    (status : OutboundSendStatus) (error : SendError) (after : Option ℕ) (r : OutboundSend)
    (d : DraftStatus)
    → is_released status ≡ true
    → paired r d ≡ true
    → (is_status claimed r ≡ true) ⊎ ((is_status sent r || is_retired d) ≡ true)
    → paired (release_row status error after r) d ≡ true
unfolding release_row not_sent released
release_row-paired_same status error after r d m h o = ground arith

pub complete_row-paired :
    (now : ℕ) (r : OutboundSend) (d : DraftStatus)
    → paired r d ≡ true
    → paired (complete_row now r) (walk_back DraftStatus.sent d) ≡ true
unfolding complete_row walk_back awaiting
complete_row-paired now r d h = ground arith

pub collapse_row-paired :
    (k now : ℕ) (r : OutboundSend) (d : DraftStatus)
    → paired r d ≡ true
    → paired (collapse_row k now r) d ≡ true
unfolding collapse_row collapse_guard collapse_set
collapse_row-paired k now r d h = ground arith

pub hold_row-paired :
    (error : Option SendError) (r : OutboundSend) (d : DraftStatus)
    → paired (hold_row error r) d ≡ true
unfolding hold_row
hold_row-paired error r d = ground arith

pub resume-paired :
    (r : OutboundSend) (d : DraftStatus)
    → is_resumable d ≡ true
    → paired r d ≡ true
    → paired r DraftStatus.pending ≡ true
resume-paired r d m h = ground arith
