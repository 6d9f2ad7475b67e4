-- ===== src/Worker/Send/Delivery/Landings.antt =====
-- apps/worker/src/jobs/send-execute.ts: the steps that end a run, or that no run takes.
use ai_email_support_agent.Base.{
  ℕ, ◌<◌, ◌≡◌, refl, Bool, true, false, Option, none, some, ◌⊎◌, inl, inr, ◌==◌, ◌||◌, arith,
  Bool-cases,
}
use ai_email_support_agent.Core.Transitions.{
  DraftStatus, draft_eq, OutboundSendStatus, queued, claimed, sent, outbound_can,
}
use ai_email_support_agent.Db.Drafts.{OutboundSend, SendError}
use ai_email_support_agent.Worker.Send.{is_status}
use ai_email_support_agent.Worker.Send.Land.{collapse_guard, collapse_set}
use ai_email_support_agent.Worker.Send.Delivery.{
  idle, Line, put, live, before_flip, awaiting, release_row, walk_back, complete_row, collapse_row,
  is_retirable, is_retired, is_resumable, is_released, is_parking, is_requeueable, hold_row,
  requeue, land_draft,
}
use ai_email_support_agent.Worker.Send.Delivery.Inv.{
  paired, quiet, Inv, is_flying, flying-eq, guard-claimed, settle-Inv,
}
use ai_email_support_agent.Worker.Send.Delivery.Rows.{
  before_flip-live, live-flying, quiet-grounded, alone, all_but, put-ends, all_but-ne,
  release_row-weaker, complete_row-weaker, collapse_row-weaker, hold_row-weaker, release_row-quiet,
  release_row-quiet_same, release_row-paired, release_row-paired_same, complete_row-paired,
  collapse_row-paired, hold_row-paired, resume-paired,
}

pub parking-released :
    (status : OutboundSendStatus) → is_parking status ≡ true → is_released status ≡ true
parking-released status m = ground arith

claimed_or_quiet :
    (s : Line) (k : ℕ)
    → Inv s
    → live s.clock (s.phase k) ≡ true
    → (is_status claimed s.send ≡ true) ⊎ (quiet s ≡ true)
claimed_or_quiet s k v l = elim (v.own k l) [
  | inl o ↦ inl (guard-claimed k s.send o)
  | inr q ↦ inr q
]

-- Two releases: with the draft walked back, or left.
module _ (s : Line) (k : ℕ) (status : OutboundSendStatus) (error : SendError)
    (after : Option ℕ) where
  pub land-Inv :
      (draft : DraftStatus)
      → before_flip s.clock (s.phase k) ≡ true
      → is_parking status ≡ true
      → is_resumable draft ≡ true
      → Inv s
      → Inv (record s {
        send = release_row status error after s.send;
        draft = land_draft draft s.send s.draft;
        phase = put k idle s.phase;
      })
  land-Inv draft b m r v =
      settle-Inv s (all_but k) (put k idle s.phase) (release_row status error after s.send)
        (land_draft draft s.send s.draft)
        (release_row-paired status error after s.send draft s.draft m) (put-ends s k)
        (λ j _ h. release_row-weaker status error after s.send j (parking-released status m) h)
        (λ j n l.
          let q = alone s k j v (before_flip-live s.clock (s.phase k) b) l (all_but-ne k j n) in
          inr
            (release_row-quiet status error after s.send draft s.draft q, quiet-grounded s j v l q))
        v

  pub release-Inv :
      before_flip s.clock (s.phase k) ≡ true
      → is_released status ≡ true
      → Inv s
      → Inv (record s { send = release_row status error after s.send; phase = put k idle s.phase })
  release-Inv b m v =
      settle-Inv s (all_but k) (put k idle s.phase) (release_row status error after s.send) s.draft
        (release_row-paired_same status error after s.send s.draft m v.pair
          (claimed_or_quiet s k v (before_flip-live s.clock (s.phase k) b)))
        (put-ends s k) (λ j _ h. release_row-weaker status error after s.send j m h)
        (λ j n l.
          let q = alone s k j v (before_flip-live s.clock (s.phase k) b) l (all_but-ne k j n) in
          inr
            (release_row-quiet_same status error after s.send s.draft q, quiet-grounded s j v l q))
        v

delivered-grounded :
    (s : Line) (j : ℕ)
    → Inv s
    → 0 < s.delivered
    → live s.clock (s.phase j) ≡ true
    → is_flying (s.phase j) ≡ false
delivered-grounded s j v d l = elim (Bool-cases (is_flying (s.phase j))) [
  | inr g ↦ g
  | inl f ↦
      let (e, p) = flying-eq (s.phase j) f in
      let z = v.fly_delivered j e p (live-flying s.clock e (s.phase j) p l) in absurd (omega arith)
]

completed :
    (s : Line) (j : ℕ)
    → Inv s
    → live s.clock (s.phase j) ≡ true
    → (is_status sent (complete_row s.clock s.send)
        || is_retired (walk_back DraftStatus.sent s.draft))
      ≡ true
unfolding complete_row walk_back awaiting collapse_guard
completed s j v l = ground (arith, v.own j l)

pub complete-Inv :
    (s : Line) (k : ℕ)
    → 0 < s.delivered
    → Inv s
    → Inv (record s {
      send = complete_row s.clock s.send;
      draft = walk_back DraftStatus.sent s.draft;
      phase = put k idle s.phase;
    })
complete-Inv s k d v =
    settle-Inv s (all_but k) (put k idle s.phase) (complete_row s.clock s.send)
      (walk_back DraftStatus.sent s.draft) (complete_row-paired s.clock s.send s.draft v.pair)
      (put-ends s k) (λ j _ h. complete_row-weaker s.clock s.send j h)
      (λ j n l. inr (completed s j v l, delivered-grounded s j v d l)) v

collapse_row-other :
    (k j now : ℕ) (r : OutboundSend)
    → (j == k) ≡ false
    → collapse_guard j r ≡ true
    → collapse_guard j (collapse_row k now r) ≡ true
unfolding collapse_row collapse_guard
collapse_row-other k j now r ne o = ground arith

collapse_row-quiet :
    (k now : ℕ) (r : OutboundSend) (d : DraftStatus)
    → (is_status sent r || is_retired d) ≡ true
    → (is_status sent (collapse_row k now r) || is_retired d) ≡ true
unfolding collapse_row collapse_guard collapse_set
collapse_row-quiet k now r d q = ground arith

pub fail_call-Inv :
    (s : Line) (k : ℕ)
    → Inv s
    → Inv (record s { send = collapse_row k s.clock s.send; phase = put k idle s.phase })
fail_call-Inv s k v =
    settle-Inv s (all_but k) (put k idle s.phase) (collapse_row k s.clock s.send) s.draft
      (collapse_row-paired k s.clock s.send s.draft v.pair) (put-ends s k)
      (λ j n h. collapse_row-weaker k s.clock s.send j (all_but-ne k j n) h)
      (λ j n l. elim (v.own j l) [
        | inl o ↦ inl (collapse_row-other k j s.clock s.send (all_but-ne k j n) o, inl refl)
        | inr q ↦ inr (collapse_row-quiet k s.clock s.send s.draft q, quiet-grounded s j v l q)
      ])
      v

pub lose_claim-Inv : (s : Line) (k : ℕ) → Inv s → Inv (record s { phase = put k idle s.phase })
lose_claim-Inv s k v =
    settle-Inv s (all_but k) (put k idle s.phase) s.send s.draft v.pair (put-ends s k)
      (λ j _ h. (h, refl))
      (λ j n l. elim (v.own j l) [
        | inl o ↦ inl (o, inl refl)
        | inr q ↦ inr (q, quiet-grounded s j v l q)
      ])
      v

-- The steps that no run takes.
abbrev every : ℕ → Bool
every j = true

same-ends : (s : Line) (j : ℕ) → (s.phase j ≡ idle) ⊎ ((every j ≡ true) × (s.phase j ≡ s.phase j))
same-ends s j = inr (refl, refl)

pub dead_letter-Inv :
    (s : Line) (error : SendError)
    → ((k : ℕ) → live s.clock (s.phase k) ≡ false)
    → Inv s
    → Inv (record s {
      send = release_row OutboundSendStatus.failed error none s.send;
      draft = land_draft DraftStatus.failed s.send s.draft;
    })
dead_letter-Inv s error none_live v =
    settle-Inv s every s.phase (release_row OutboundSendStatus.failed error none s.send)
      (land_draft DraftStatus.failed s.send s.draft)
      (release_row-paired OutboundSendStatus.failed error none s.send DraftStatus.failed s.draft
        refl)
      (same-ends s)
      (λ j _ h. release_row-weaker OutboundSendStatus.failed error none s.send j refl h)
      (λ j _ l. let d = none_live j in absurd (cc)) v

-- A live run when the send is not claimed: the send is settled.
unclaimed-quiet :
    (s : Line) (j : ℕ)
    → Inv s
    → live s.clock (s.phase j) ≡ true
    → is_status claimed s.send ≡ false
    → quiet s ≡ true
unclaimed-quiet s j v l u = elim (v.own j l) [
  | inl o ↦ let c = guard-claimed j s.send o in absurd (cc)
  | inr q ↦ q
]

queued-loud :
    (r : OutboundSend) (d : DraftStatus)
    → is_status queued r ≡ true
    → draft_eq d DraftStatus.approved ≡ true
    → (is_status sent r || is_retired d) ≡ true
    → ⊥
queued-loud r d q a l = ground arith

pub hold-Inv :
    (s : Line)
    → is_status queued s.send ≡ true
    → draft_eq s.draft DraftStatus.approved ≡ true
    → Inv s
    → Inv (record s { send = hold_row s.send.last_error s.send; draft = DraftStatus.pending })
hold-Inv s q a v =
    settle-Inv s every s.phase (hold_row s.send.last_error s.send) DraftStatus.pending
      (hold_row-paired s.send.last_error s.send DraftStatus.pending) (same-ends s)
      (λ j _ h. hold_row-weaker s.send.last_error s.send j h)
      (λ j _ l.
        let loud = unclaimed-quiet s j v l (ground arith) in
        absurd (queued-loud s.send s.draft q a loud))
      v

unclaimed :
    (j send_after : ℕ) (r : OutboundSend) → collapse_guard j (requeue send_after r) ≡ true → ⊥
unfolding collapse_guard requeue
unclaimed j send_after r h = ground arith

pending-loud :
    (r : OutboundSend) (d : DraftStatus)
    → draft_eq d DraftStatus.pending ≡ true
    → is_requeueable r.status ≡ true
    → (is_status sent r || is_retired d) ≡ true
    → ⊥
unfolding is_requeueable outbound_can
pending-loud r d q a l = ground arith

-- A draft that waits for the owner has no send on its way.
pending-unclaimed :
    (r : OutboundSend) (d : DraftStatus)
    → draft_eq d DraftStatus.pending ≡ true
    → paired r d ≡ true
    → is_status claimed r ≡ false
pending-unclaimed r d p h = ground arith

pub pending-parked :
    (r : OutboundSend) (d : DraftStatus)
    → draft_eq d DraftStatus.pending ≡ true
    → paired r d ≡ true
    → (is_status queued r || is_status claimed r) ≡ false
pending-parked r d p h = ground arith

requeue-paired :
    (send_after : ℕ) (r : OutboundSend) → paired (requeue send_after r) DraftStatus.approved ≡ true
unfolding requeue
requeue-paired send_after r = refl

pub approve-Inv :
    (s : Line) (send_after : ℕ)
    → draft_eq s.draft DraftStatus.pending ≡ true
    → is_requeueable s.send.status ≡ true
    → Inv s
    → Inv (record s { send = requeue send_after s.send; draft = DraftStatus.approved })
approve-Inv s send_after p q v =
    settle-Inv s every s.phase (requeue send_after s.send) DraftStatus.approved
      (requeue-paired send_after s.send) (same-ends s)
      (λ j _ h. absurd (unclaimed j send_after s.send h))
      (λ j _ l.
        let loud = unclaimed-quiet s j v l (pending-unclaimed s.send s.draft p v.pair) in
        absurd (pending-loud s.send s.draft p q loud))
      v

resumable-waits : (d : DraftStatus) → is_resumable d ≡ true → draft_eq d DraftStatus.sending ≡ false
resumable-waits d r = ground arith

retirable-waits : (d : DraftStatus) → is_retirable d ≡ true → draft_eq d DraftStatus.sending ≡ false
retirable-waits d r = ground arith

pending-waits :
    (d : DraftStatus)
    → draft_eq d DraftStatus.pending ≡ true
    → draft_eq d DraftStatus.sending ≡ false
pending-waits d p = ground arith

rejected-paired : (r : OutboundSend) → paired r DraftStatus.rejected ≡ true
rejected-paired r = ground arith

rejected-quiet : (r : OutboundSend) → (is_status sent r || is_retired DraftStatus.rejected) ≡ true
rejected-quiet r = ground arith

waiting-grounded :
    (s : Line) (j : ℕ)
    → Inv s
    → draft_eq s.draft DraftStatus.sending ≡ false
    → live s.clock (s.phase j) ≡ true
    → is_flying (s.phase j) ≡ false
waiting-grounded s j v w l = elim (Bool-cases (is_flying (s.phase j))) [
  | inr g ↦ g
  | inl f ↦
      let (e, p) = flying-eq (s.phase j) f in
      let d = v.fly_draft j e p (live-flying s.clock e (s.phase j) p l) in absurd (cc)
]

resumed-quiet :
    (r : OutboundSend) (d : DraftStatus)
    → is_resumable d ≡ true
    → (is_status sent r || is_retired d) ≡ true
    → (is_status sent r || is_retired DraftStatus.pending) ≡ true
resumed-quiet r d m q = ground arith

pub resume-Inv :
    (s : Line)
    → is_resumable s.draft ≡ true
    → Inv s
    → Inv (record s { draft = DraftStatus.pending })
resume-Inv s r v =
    settle-Inv s every s.phase s.send DraftStatus.pending (resume-paired s.send s.draft r v.pair)
      (same-ends s) (λ j _ h. (h, refl))
      (λ j _ l. elim (v.own j l) [
        | inl o ↦ inl (o, inr (waiting-grounded s j v (resumable-waits s.draft r) l))
        | inr q ↦ inr (resumed-quiet s.send s.draft r q, quiet-grounded s j v l q)
      ])
      v

pub reject-Inv :
    (s : Line)
    → draft_eq s.draft DraftStatus.pending ≡ true
    → Inv s
    → Inv (record s { draft = DraftStatus.rejected })
reject-Inv s p v =
    settle-Inv s every s.phase s.send DraftStatus.rejected (rejected-paired s.send) (same-ends s)
      (λ j _ h. (h, refl))
      (λ j _ l. inr (rejected-quiet s.send, waiting-grounded s j v (pending-waits s.draft p) l)) v

pub retire-Inv :
    (s : Line) (status : DraftStatus) (error : SendError)
    → is_retirable s.draft ≡ true
    → is_retired status ≡ true
    → Inv s
    → Inv (record s { send = hold_row (some error) s.send; draft = status })
retire-Inv s status error a r v =
    settle-Inv s every s.phase (hold_row (some error) s.send) status
      (hold_row-paired (some error) s.send status) (same-ends s)
      (λ j _ h. hold_row-weaker (some error) s.send j h)
      (λ j _ l. inr (ground arith, waiting-grounded s j v (retirable-waits s.draft a) l)) v
