-- ===== src/Worker/Claim/Cases.antt =====
-- apps/worker/src/drafting/claim.ts: what a granted claim says of the locked row, and what it writes.
use ai_email_support_agent.Base.{
  ℕ, ◌+◌, ◌<◌, Bool, true, false, not, ◌&&◌, some, ◌≡◌, refl, ◌⊎◌, inl, inr, arith, Option-cases,
  Bool-cases, leb,
}
use ai_email_support_agent.Core.Transitions.{TicketStatus, triaged, ticket_eq}
use ai_email_support_agent.Db.Tables.{Ticket, Tables, find_ticket, update_ticket, always}
use ai_email_support_agent.Worker.Claim.{
  Claim, claimed, never_run, new_inbound, stuck, stamp, stamp_counted, escalate_at, claim_locked,
  claim_stuck, claim_ticket,
}

pub eq_triaged : (a : TicketStatus) → ticket_eq a triaged ≡ true → a ≡ triaged
eq_triaged a h = ground arith

-- The claim that is handed out for a row.
abbrev pub claim_of : Bool → Ticket → ℕ → Claim
claim_of charged t now = record {
  stuck_claim = charged;
  ticket = t;
  thread_snapshot_at = t.last_inbound_at;
  prior_last_agent_run_at = t.last_agent_run_at;
  stamped_last_agent_run_at = now;
}

-- The two ways to be granted a claim: free of charge, or charged to the stuck branch.
pub record Free (t : Ticket) (k now : ℕ) (s s' : Tables) (c : Claim) : Type 0 where
  pub fresh : (never_run t ≡ true) ⊎ (new_inbound t ≡ true)
  pub claim : c ≡ claim_of false t now
  pub tables : s' ≡ record s { tickets = (update_ticket k always (stamp now) s.tickets).0 }

pub record Charged (t : Ticket) (k now : ℕ) (s s' : Tables) (c : Claim) : Type 0 where
  pub stale : (never_run t ≡ false) × (new_inbound t ≡ false) × (stuck t now ≡ true)
  pub first : t.agent_failure_count ≡ 0
  pub claim : c ≡ claim_of true t now
  pub tables :
      s' ≡ record s { tickets = (update_ticket k always (stamp_counted now 1) s.tickets).0 }

module _ (day_of : ℕ → ℕ) where
  claim_stuck-Charged :
      (t : Ticket) (k now : ℕ) (s : Tables) (c : Claim)
      → (never_run t ≡ false) × (new_inbound t ≡ false) × (stuck t now ≡ true)
      → (claim_stuck day_of t k now s).0 ≡ claimed c
      → Charged t k now s (claim_stuck day_of t k now s).1 c
  unfolding claim_stuck
  claim_stuck-Charged t k now s c h e = elim (Bool-cases (leb 2 (t.agent_failure_count + 1))) [
    | inl over ↦ let e' = rw over at e in absurd (cc)
    | inr low ↦
        let e' = rw low at e in
        let zero_count : t.agent_failure_count ≡ 0 = ground arith in
        rw (low, zero_count) (record { stale = h; first = refl; claim = cc; tables = refl })
  ]

  claim_locked-cases :
      (t : Ticket) (k now : ℕ) (s : Tables) (c : Claim)
      → (claim_locked day_of t k now s).0 ≡ claimed c
      → (t.status ≡ triaged)
        × (t.agent_failure_count < 2)
        × (Free t k now s (claim_locked day_of t k now s).1 c
            ⊎ Charged t k now s (claim_locked day_of t k now s).1 c)
  unfolding claim_locked
  claim_locked-cases t k now s c e = elim (Bool-cases (not (ticket_eq t.status triaged))) [
    | inl away ↦ let e' = rw away at e in absurd (cc)
    | inr here ↦ elim (Bool-cases (leb escalate_at t.agent_failure_count)) [
      | inl over ↦ let e' = rw (here, over) at e in absurd (cc)
      | inr low ↦
          elim (Bool-cases (not (never_run t) && not (new_inbound t) && not (stuck t now))) [
            | inl quiet ↦ let e' = rw (here, low, quiet) at e in absurd (cc)
            | inr call ↦
                elim (Bool-cases (stuck t now && not (never_run t) && not (new_inbound t))) [
                  | inl charged ↦
                      let e' = rw (here, low, call, charged) at e in
                      rw (here, low, call, charged)
                        (
                          eq_triaged t.status (ground arith),
                          ground arith,
                          inr (claim_stuck-Charged t k now s c (ground arith) e'),
                        )
                  | inr free ↦
                      let e' = rw (here, low, call, free) at e in
                      rw (here, low, call, free)
                        (
                          eq_triaged t.status (ground arith),
                          ground arith,
                          inl (record { fresh = ground arith; claim = cc; tables = refl }),
                        )
                ]
          ]
    ]
  ]

  -- A granted claim found a `triaged` row below the failure ceiling.
  pub claim_ticket-cases :
      (k now : ℕ) (s : Tables) (c : Claim)
      → (claim_ticket day_of k now s).0 ≡ claimed c
      → (t : Ticket) × (find_ticket k s.tickets ≡ some t)
        × (t.status ≡ triaged)
        × (t.agent_failure_count < 2)
        × (Free t k now s (claim_ticket day_of k now s).1 c
            ⊎ Charged t k now s (claim_ticket day_of k now s).1 c)
  unfolding claim_ticket
  claim_ticket-cases k now s c e = elim (Option-cases (find_ticket k s.tickets)) [
    | inl gone ↦ let e' = rw gone at e in absurd (cc)
    | inr (t, here) ↦
        let r = claim_locked-cases t k now s c (rw here at e) in rw here (t, refl, r.0, r.1, r.2)
  ]
