-- ===== src/Worker/Send/Delivery/Inv.antt =====
-- apps/worker/src/jobs/send-execute.ts: what holds of a send between two steps.
use ai_email_support_agent.Base.{
  ℕ, ◌+◌, ◌<◌, ◌≤◌, ◌≡◌, refl, sym, ◌∙◌, Bool, true, false, not, Option, none, some, ◌⊎◌, inl, inr,
  ◌==◌, ◌||◌, arith, tests, lt→ltb, Bool-cases, ==_iff,
}
use ai_email_support_agent.Core.Transitions.{DraftStatus, draft_eq, queued, claimed, sent}
use ai_email_support_agent.Db.Drafts.{OutboundSend}
use ai_email_support_agent.Worker.Send.{is_status}
use ai_email_support_agent.Worker.Send.Land.{collapse_guard}
use ai_email_support_agent.Worker.Send.Delivery.{
  Phase, idle, scanning, scanned, flying, handed, Line, put, live, is_retired, is_resumable,
}

-- The expiry of the claim of a run that is not over.
abbrev pub claim_of : Phase → Option ℕ
claim_of (scanning e) = some e
claim_of (scanned e) = some e
claim_of (flying e) = some e
claim_of _ = none

abbrev pub quiet : Line → Bool
quiet s = is_status sent s.send || is_retired s.draft

-- A send that is on its way stands beside a draft that is not waiting for the owner.
abbrev pub paired : OutboundSend → DraftStatus → Bool
paired r d =
    not (is_status queued r || is_status claimed r)
    || not (draft_eq d DraftStatus.pending || is_resumable d)

pub record Inv (s : Line) : Type 0 where
  -- A call that may still deliver: nothing was delivered, and its run owns the claim.
  pub fly_delivered : (k e : ℕ) → s.phase k ≡ flying e → s.clock < e → s.delivered ≡ 0
  pub fly_owns : (k e : ℕ) → s.phase k ≡ flying e → s.clock < e → collapse_guard k s.send ≡ true
  pub fly_draft :
      (k e : ℕ) → s.phase k ≡ flying e → s.clock < e → draft_eq s.draft DraftStatus.sending ≡ true
  -- A run that may still write owns the claim, or nothing can be sent any more.
  pub own :
      (k : ℕ)
      → live s.clock (s.phase k) ≡ true
      → (collapse_guard k s.send ≡ true) ⊎ (quiet s ≡ true)
  pub expiry :
      (k e : ℕ)
      → claim_of (s.phase k) ≡ some e
      → collapse_guard k s.send ≡ true
      → s.send.claim_expires_at ≡ some e
  pub missed :
      (k e : ℕ)
      → s.phase k ≡ scanned e
      → s.clock < e
      → collapse_guard k s.send ≡ true
      → s.delivered ≡ 0
  pub handed_over : (k e : ℕ) → s.phase k ≡ handed e → 0 < s.delivered
  pub once : s.delivered ≤ 1
  pub pair : paired s.send s.draft ≡ true

pub put-cases :
    (k j : ℕ) (p q : Phase) (f : ℕ → Phase)
    → put k p f j ≡ q
    → ((j ≡ k) × (p ≡ q)) ⊎ (((j == k) ≡ false) × (f j ≡ q))
put-cases k j p q f h = elim (Bool-cases (j == k)) [
  | inl here ↦ inl ((==_iff j k).0 here, rw here at h)
  | inr there ↦ inr (there, rw there at h)
]

pub tick-Inv : (s : Line) (n : ℕ) → Inv s → Inv (record s { clock = s.clock + n })
tick-Inv s n v = record {
  fly_delivered = λ k e h l. v.fly_delivered k e h (omega arith);
  fly_owns = λ k e h l. v.fly_owns k e h (omega arith);
  fly_draft = λ k e h l. v.fly_draft k e h (omega arith);
  own = λ k l. v.own k (later (s.phase k) l);
  expiry = v.expiry;
  missed = λ k e h l o. v.missed k e h (omega arith) o;
  handed_over = v.handed_over;
  once = v.once;
  pair = v.pair;
}
  where
    later : (p : Phase) → live (s.clock + n) p ≡ true → live s.clock p ≡ true
    later idle l = l
    later (scanning e) l = omega tests
    later (scanned e) l = omega tests
    later (flying e) l = omega tests
    later (handed e) l = l

abbrev pub is_flying : Phase → Bool
is_flying (flying e) = true
is_flying _ = false

pub flying-eq : (p : Phase) → is_flying p ≡ true → (e : ℕ) × (p ≡ flying e)
flying-eq (flying e) h = (e, refl)
flying-eq idle h = absurd (cc)
flying-eq (scanning e) h = absurd (cc)
flying-eq (scanned e) h = absurd (cc)
flying-eq (handed e) h = absurd (cc)

pub guard-claimed :
    (k : ℕ) (r : OutboundSend) → collapse_guard k r ≡ true → is_status claimed r ≡ true
unfolding collapse_guard
guard-claimed k r h = ground arith

pub same_token :
    (j k : ℕ) (r : OutboundSend)
    → collapse_guard j r ≡ true
    → collapse_guard k r ≡ true
    → (j == k) ≡ true
unfolding collapse_guard
same_token j k r h h' = ground arith

-- Where a call may still deliver, the send is not settled.
pub flying-loud :
    (s : Line) → Inv s → (k e : ℕ) → s.phase k ≡ flying e → s.clock < e → quiet s ≡ true → ⊥
unfolding collapse_guard
flying-loud s v k e h l q = ground (arith, v.fly_owns k e h l, v.fly_draft k e h l)

pub flying_live :
    (s : Line) (k e : ℕ) → s.phase k ≡ flying e → s.clock < e → live s.clock (s.phase k) ≡ true
flying_live s k e h l = rw h (lt→ltb s.clock e l)

-- A step that ends runs, or none, and leaves the claims of the others: the invariant is kept where each
-- live run that is left owns its claim as before, or is not delivering and all is quiet after the step.
module _ (s : Line) (left : ℕ → Bool) (phase : ℕ → Phase) (send : OutboundSend)
    (draft : DraftStatus) (beside : paired send draft ≡ true)
    (ends : (j : ℕ) → (phase j ≡ idle) ⊎ ((left j ≡ true) × (phase j ≡ s.phase j)))
    (weaker : (j : ℕ)
      → left j ≡ true
      → collapse_guard j send ≡ true
      → (collapse_guard j s.send ≡ true) × (send.claim_expires_at ≡ s.send.claim_expires_at))
    (others : (j : ℕ)
      → left j ≡ true
      → live s.clock (s.phase j) ≡ true
      → ((collapse_guard j send ≡ true) × ((draft ≡ s.draft) ⊎ (is_flying (s.phase j) ≡ false)))
        ⊎ ((is_status sent send || is_retired draft ≡ true)
            × (is_flying (s.phase j) ≡ false))) where
  kept : (j : ℕ) (q : Phase) → phase j ≡ q → (idle ≡ q) ⊎ ((left j ≡ true) × (s.phase j ≡ q))
  kept j q h = elim (ends j) [ inl i ↦ inl (sym i ∙ h) | inr p ↦ inr (p.0, sym p.1 ∙ h) ]

  pub settle-Inv : Inv s → Inv (record s { send = send; draft = draft; phase = phase })
  settle-Inv v = record {
    fly_delivered = λ k e h l. elim (kept k (flying e) h) [
      | inl i ↦ absurd (cc)
      | inr p ↦ v.fly_delivered k e p.1 l
    ];
    fly_owns = λ k e h l. elim (kept k (flying e) h) [
      | inl i ↦ absurd (cc)
      | inr p ↦ elim (others k p.0 (flying_live s k e p.1 l)) [ inl o ↦ o.0 | inr o ↦ absurd (cc) ]
    ];
    fly_draft = λ k e h l. elim (kept k (flying e) h) [
      | inl i ↦ absurd (cc)
      | inr p ↦ elim (others k p.0 (flying_live s k e p.1 l)) [
        | inl o ↦ elim o.1 [ inl same ↦ rw same (v.fly_draft k e p.1 l) | inr g ↦ absurd (cc) ]
        | inr o ↦ absurd (cc)
      ]
    ];
    own = λ k l. elim (ends k) [
      | inl i ↦ absurd (cc)
      | inr p ↦ elim (others k p.0 (rw p.1 at l)) [ inl o ↦ inl o.0 | inr o ↦ inr o.0 ]
    ];
    expiry = λ k e h o. elim (ends k) [
      | inl i ↦ absurd (cc)
      | inr p ↦ (weaker k p.0 o).1 ∙ v.expiry k e (rw p.1 at h) (weaker k p.0 o).0
    ];
    missed = λ k e h l o. elim (kept k (scanned e) h) [
      | inl i ↦ absurd (cc)
      | inr p ↦ v.missed k e p.1 l (weaker k p.0 o).0
    ];
    handed_over =
        λ k e h. elim (kept k (handed e) h) [ inl i ↦ absurd (cc) | inr p ↦ v.handed_over k e p.1 ];
    once = v.once;
    pair = beside;
  }
