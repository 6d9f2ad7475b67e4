-- ===== src/Worker/Send/Delivery/Claims.antt =====
-- apps/worker/src/jobs/send-execute.ts: the steps of a run up to its delivery.
use ai_email_support_agent.Base.{
  ℕ, suc, ◌+◌, ◌*◌, ◌<◌, ◌≡◌, refl, sym, ◌∙◌, true, false, none, some, ◌⊎◌, inl, inr, ◌==◌, ◌||◌,
  ltb, arith, lt→ltb, ltb→lt, Bool-cases, ==_iff, ==_refl,
}
use ai_email_support_agent.Core.Transitions.{DraftStatus, sent}
use ai_email_support_agent.Db.Drafts.{OutboundSend}
use ai_email_support_agent.Worker.Send.{
  claim_guard, claim_set, is_status, send_claim_horizon_seconds,
}
use ai_email_support_agent.Worker.Send.Land.{collapse_guard}
use ai_email_support_agent.Worker.Send.Run.{flip_guard}
use ai_email_support_agent.Worker.Send.Delivery.{
  Phase, idle, scanning, scanned, flying, handed, Line, put, live, awaiting, is_retired,
}
use ai_email_support_agent.Worker.Send.Delivery.Inv.{
  paired, claim_of, quiet, Inv, put-cases, same_token, flying-loud, flying_live,
}

-- A row that can be claimed belongs to no live run.
claim_guard-free :
    (now k e : ℕ) (r : OutboundSend)
    → claim_guard now r ≡ true
    → collapse_guard k r ≡ true
    → r.claim_expires_at ≡ some e
    → now < e
    → ⊥
unfolding claim_guard collapse_guard
claim_guard-free now k e r g o x l = ground arith

claim_guard-unsent :
    (now : ℕ) (r : OutboundSend) → claim_guard now r ≡ true → is_status sent r ≡ false
unfolding claim_guard
claim_guard-unsent now r g = ground arith

live-claim : (c : ℕ) (p : Phase) → live c p ≡ true → (e : ℕ) × (claim_of p ≡ some e) × (c < e)
live-claim c idle h = absurd (cc)
live-claim c (scanning e) h = (e, refl, ltb→lt c e h)
live-claim c (scanned e) h = (e, refl, ltb→lt c e h)
live-claim c (flying e) h = (e, refl, ltb→lt c e h)
live-claim c (handed e) h = absurd (cc)

quiet-retired :
    (r : OutboundSend) (d : DraftStatus)
    → (is_status sent r || is_retired d) ≡ true
    → is_status sent r ≡ false
    → is_retired d ≡ true
quiet-retired r d q u = ground arith

claimable-retired :
    (s : Line) (j : ℕ)
    → Inv s
    → claim_guard s.clock s.send ≡ true
    → live s.clock (s.phase j) ≡ true
    → is_retired s.draft ≡ true
claimable-retired s j v g l = elim (v.own j l) [
  | inl o ↦
      let (e, c, lt) = live-claim s.clock (s.phase j) l in
      absurd (claim_guard-free s.clock j e s.send g o (v.expiry j e c o) lt)
  | inr q ↦ let u = claim_guard-unsent s.clock s.send g in quiet-retired s.send s.draft q u
]

retired-quiet :
    (r : OutboundSend) (d : DraftStatus)
    → is_retired d ≡ true
    → (is_status sent r || is_retired d) ≡ true
retired-quiet r d h = ground arith

-- A live run beside a row that can be claimed does not deliver.
claimable-grounded :
    (s : Line) (k e : ℕ)
    → Inv s
    → claim_guard s.clock s.send ≡ true
    → s.phase k ≡ flying e
    → s.clock < e
    → ⊥
claimable-grounded s k e v g h l =
    let r = claimable-retired s k v g (flying_live s k e h l) in
    flying-loud s v k e h l (retired-quiet s.send s.draft r)

claim_set-owns :
    (k j now : ℕ) (r : OutboundSend) → collapse_guard j (claim_set k now r) ≡ true → (j == k) ≡ true
unfolding claim_set collapse_guard
claim_set-owns k j now r h = ground arith

claim_set-owned : (k now : ℕ) (r : OutboundSend) → collapse_guard k (claim_set k now r) ≡ true
unfolding claim_set collapse_guard
claim_set-owned k now r = rw (==_refl k) refl

claim_set-expiry :
    (k now : ℕ) (r : OutboundSend)
    → (claim_set k now r).claim_expires_at ≡ some (now + send_claim_horizon_seconds * 1000)
unfolding claim_set
claim_set-expiry k now r = refl

claim_set-paired :
    (k now : ℕ) (r : OutboundSend) (d : DraftStatus)
    → claim_guard now r ≡ true
    → paired r d ≡ true
    → paired (claim_set k now r) d ≡ true
unfolding claim_guard claim_set
claim_set-paired k now r d g h = ground arith

sending-paired : (r : OutboundSend) → paired r DraftStatus.sending ≡ true
sending-paired r = ground arith

module _ (s : Line) (k : ℕ) (g : claim_guard s.clock s.send ≡ true) where
  pub claim-Inv :
      Inv s
      → Inv (record s {
        send = claim_set k s.clock s.send;
        phase = put k (scanning (s.clock + send_claim_horizon_seconds * 1000)) s.phase;
      })
  claim-Inv v = record {
    fly_delivered = λ j e h l. elim (cases j (flying e) h) [
      | inl p ↦ absurd (cc)
      | inr p ↦ v.fly_delivered j e p.1 l
    ];
    fly_owns = λ j e h l. elim (cases j (flying e) h) [
      | inl p ↦ absurd (cc)
      | inr p ↦ absurd (claimable-grounded s j e v g p.1 l)
    ];
    fly_draft = λ j e h l. elim (cases j (flying e) h) [
      | inl p ↦ absurd (cc)
      | inr p ↦ v.fly_draft j e p.1 l
    ];
    own = λ j l. elim (Bool-cases (j == k)) [
      | inl here ↦ inl (rw ((==_iff j k).0 here) (claim_set-owned k s.clock s.send))
      | inr there ↦ inr (
          retired-quiet (claim_set k s.clock s.send) s.draft
            (claimable-retired s j v g (rw there at l)))
    ];
    expiry = λ j e h o. elim (cases_claim j e h) [
      | inl p ↦ claim_set-expiry k s.clock s.send ∙ p
      | inr ne ↦ let eq = claim_set-owns k j s.clock s.send o in absurd (cc)
    ];
    missed = λ j e h l o. elim (cases j (scanned e) h) [
      | inl p ↦ absurd (cc)
      | inr p ↦ let eq = claim_set-owns k j s.clock s.send o in absurd (cc)
    ];
    handed_over = λ j e h. elim (cases j (handed e) h) [
      | inl p ↦ absurd (cc)
      | inr p ↦ v.handed_over j e p.1
    ];
    once = v.once;
    pair = claim_set-paired k s.clock s.send s.draft g v.pair;
  }
    where
      cases :
          (j : ℕ) (q : Phase)
          → put k (scanning (s.clock + send_claim_horizon_seconds * 1000)) s.phase j ≡ q
          → ((j ≡ k) × (scanning (s.clock + send_claim_horizon_seconds * 1000) ≡ q))
            ⊎ (((j == k) ≡ false) × (s.phase j ≡ q))
      cases j q h =
          put-cases k j (scanning (s.clock + send_claim_horizon_seconds * 1000)) q s.phase h

      cases_claim :
          (j e : ℕ)
          → claim_of (put k (scanning (s.clock + send_claim_horizon_seconds * 1000)) s.phase j)
            ≡ some e
          → (some (s.clock + send_claim_horizon_seconds * 1000) ≡ some e) ⊎ ((j == k) ≡ false)
      cases_claim j e h = elim (Bool-cases (j == k)) [
        | inl here ↦ inl (rw here at h)
        | inr there ↦ inr there
      ]

some-inj : (a b : ℕ) → some a ≡ some b → a ≡ b
some-inj a b h = cc

-- The run moves on without a write to the send: what its phase says of its claim stays.
module _ (s : Line) (k e : ℕ) (p : Phase) (was : claim_of (s.phase k) ≡ some e)
    (is : claim_of p ≡ some e) where
  put-expiry :
      Inv s
      → (j x : ℕ) → claim_of (put k p s.phase j) ≡ some x
      → collapse_guard j s.send ≡ true
      → s.send.claim_expires_at ≡ some x
  put-expiry v j x h o = elim (Bool-cases (j == k)) [
    | inl here ↦
        let j_is : j ≡ k = (==_iff j k).0 here in
        let h' : claim_of p ≡ some x = rw here at h in v.expiry j x (rw j_is (was ∙ sym is ∙ h')) o
    | inr there ↦ v.expiry j x (rw there at h) o
  ]

pub scan_missed-Inv :
    (s : Line) (k e : ℕ)
    → s.phase k ≡ scanning e
    → s.delivered ≡ 0
    → Inv s
    → Inv (record s { phase = put k (scanned e) s.phase })
scan_missed-Inv s k e h z v = record {
  fly_delivered = λ j x q l. z;
  fly_owns = λ j x q l. elim (put-cases k j (scanned e) (flying x) s.phase q) [
    | inl p ↦ absurd (cc)
    | inr p ↦ v.fly_owns j x p.1 l
  ];
  fly_draft = λ j x q l. elim (put-cases k j (scanned e) (flying x) s.phase q) [
    | inl p ↦ absurd (cc)
    | inr p ↦ v.fly_draft j x p.1 l
  ];
  own = λ j l. elim (Bool-cases (j == k)) [
    | inl here ↦
        let j_is : j ≡ k = (==_iff j k).0 here in
        let l' : ltb s.clock e ≡ true = rw here at l in v.own j (rw (j_is, h) l')
    | inr there ↦ v.own j (rw there at l)
  ];
  expiry = put-expiry s k e (scanned e) (rw h refl) refl v;
  missed = λ j x q l o. z;
  handed_over = λ j x q. elim (put-cases k j (scanned e) (handed x) s.phase q) [
    | inl p ↦ absurd (cc)
    | inr p ↦ v.handed_over j x p.1
  ];
  once = v.once;
  pair = v.pair;
}

-- What the flip's guard says of the row.
flip_guard-owns :
    (k now : ℕ) (r : OutboundSend) → flip_guard k now r ≡ true → collapse_guard k r ≡ true
unfolding flip_guard collapse_guard
flip_guard-owns k now r g = ground arith

flip_guard-live :
    (k now e : ℕ) (r : OutboundSend)
    → flip_guard k now r ≡ true
    → r.claim_expires_at ≡ some e
    → now < e
unfolding flip_guard
flip_guard-live k now e r g x = ground arith

awaiting-unretired : (d : DraftStatus) → awaiting d ≡ true → is_retired d ≡ false
unfolding awaiting
awaiting-unretired d h = ground arith

owned-loud :
    (k : ℕ) (r : OutboundSend) (d : DraftStatus)
    → collapse_guard k r ≡ true
    → is_retired d ≡ false
    → (is_status sent r || is_retired d) ≡ true
    → ⊥
unfolding collapse_guard
owned-loud k r d o u q = ground arith

module _ (s : Line) (k e : ℕ) (h : s.phase k ≡ scanned e) (g : flip_guard k s.clock s.send ≡ true)
    (a : awaiting s.draft ≡ true) (v : Inv s) where
  flip_owns : collapse_guard k s.send ≡ true
  flip_owns = flip_guard-owns k s.clock s.send g

  flip_live : s.clock < e
  flip_live = flip_guard-live k s.clock e s.send g (v.expiry k e (rw h refl) flip_owns)

  flip_delivered : s.delivered ≡ 0
  flip_delivered = v.missed k e h flip_live flip_owns

  flip_loud : quiet s ≡ true → ⊥
  flip_loud q = owned-loud k s.send s.draft flip_owns (awaiting-unretired s.draft a) q

  -- Every live run owns the claim, which is this run's.
  flip_alone : (j : ℕ) → live s.clock (s.phase j) ≡ true → collapse_guard j s.send ≡ true
  flip_alone j l = elim (v.own j l) [ inl o ↦ o | inr q ↦ absurd (flip_loud q) ]

  pub flip-Inv : Inv (record s { draft = DraftStatus.sending; phase = put k (flying e) s.phase })
  flip-Inv = record {
    fly_delivered = λ j x q l. flip_delivered;
    fly_owns = λ j x q l. elim (put-cases k j (flying e) (flying x) s.phase q) [
      | inl p ↦ rw p.0 flip_owns
      | inr p ↦ v.fly_owns j x p.1 l
    ];
    fly_draft = λ j x q l. refl;
    own = λ j l. elim (Bool-cases (j == k)) [
      | inl here ↦ inl (rw ((==_iff j k).0 here) flip_owns)
      | inr there ↦ inl (flip_alone j (rw there at l))
    ];
    expiry = put-expiry s k e (flying e) (rw h refl) refl v;
    missed = λ j x q l o. flip_delivered;
    handed_over = λ j x q. elim (put-cases k j (flying e) (handed x) s.phase q) [
      | inl p ↦ absurd (cc)
      | inr p ↦ v.handed_over j x p.1
    ];
    once = v.once;
    pair = sending-paired s.send;
  }

module _ (s : Line) (k e : ℕ) (h : s.phase k ≡ flying e) (l : s.clock < e) (v : Inv s) where
  -- A second live run would own the claim of this one.
  deliver_alone :
      (j : ℕ)
      → (j == k) ≡ false
      → live s.clock (s.phase j) ≡ true
      → collapse_guard j s.send ≡ true
      → ⊥
  deliver_alone j ne lj o = let same = same_token j k s.send o (v.fly_owns k e h l) in absurd (cc)

  pub deliver-Inv : Inv (record s { delivered = suc s.delivered; phase = put k (handed e) s.phase })
  deliver-Inv = record {
    fly_delivered = λ j x q m. elim (put-cases k j (handed e) (flying x) s.phase q) [
      | inl p ↦ absurd (cc)
      | inr p ↦ absurd (twice j x (p.0) p.1 m)
    ];
    fly_owns = λ j x q m. elim (put-cases k j (handed e) (flying x) s.phase q) [
      | inl p ↦ absurd (cc)
      | inr p ↦ v.fly_owns j x p.1 m
    ];
    fly_draft = λ j x q m. elim (put-cases k j (handed e) (flying x) s.phase q) [
      | inl p ↦ absurd (cc)
      | inr p ↦ v.fly_draft j x p.1 m
    ];
    own = λ j m. elim (Bool-cases (j == k)) [
      | inl here ↦ let m' : false ≡ true = rw here at m in absurd (cc)
      | inr there ↦ v.own j (rw there at m)
    ];
    expiry = λ j x q o. elim (Bool-cases (j == k)) [
      | inl here ↦ let q' : none ≡ some x = rw here at q in absurd (cc)
      | inr there ↦ v.expiry j x (rw there at q) o
    ];
    missed = λ j x q m o. elim (put-cases k j (handed e) (scanned x) s.phase q) [
      | inl p ↦ absurd (cc)
      | inr p ↦ absurd (deliver_alone j p.0 (rw p.1 (lt→ltb s.clock x m)) o)
    ];
    handed_over = λ j x q. omega arith;
    once = let z = v.fly_delivered k e h l in omega arith;
    pair = v.pair;
  }
    where
      twice : (j x : ℕ) → (j == k) ≡ false → s.phase j ≡ flying x → s.clock < x → ⊥
      twice j x ne q m = deliver_alone j ne (flying_live s j x q m) (v.fly_owns j x q m)
