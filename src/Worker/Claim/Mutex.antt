-- ===== src/Worker/Claim/Mutex.antt =====
-- apps/worker/src/drafting/claim.ts: a second claim of the same ticket, and the unwind.
use ai_email_support_agent.Base.{
  ℕ, ◌+◌, ◌≤◌, ◌<◌, ◌==◌, true, false, Option, none, some, List, [], ◌∷◌, ◌≡◌, refl, inl, inr,
  arith, ◌∙◌, Bool-cases, ==_refl,
}
use ai_email_support_agent.Core.Transitions.{TicketStatus, triaged, ticket_eq}
use ai_email_support_agent.Db.Tables.{Ticket, Tables, find_ticket, update_ticket, always}
use ai_email_support_agent.Db.Tables.Rows.{find_ticket-update}
use ai_email_support_agent.Worker.Claim.{
  Claim, refused, claimed, never_run, new_inbound, before, stuck, is_stuck, stuck_after, stamp,
  stamp_counted, claim_locked, claim_ticket, watermark, unwind_claim_stamp, unwind_guard, restore,
}
use ai_email_support_agent.Worker.Claim.Cases.{Free, Charged, claim_ticket-cases}

-- A claim is not stuck before the twenty minutes are over.
young :
    (now now' : ℕ) (finished : Option ℕ)
    → now' ≤ now + stuck_after
    → is_stuck (some now) finished now' ≡ false
young now now' none e = ground arith
young now now' (some f) e = ground arith

stamp_id : (now : ℕ) (t : Ticket) → (stamp now t).id ≡ t.id
unfolding stamp
stamp_id now t = refl

stamp_counted_id : (now n : ℕ) (t : Ticket) → (stamp_counted now n t).id ≡ t.id
unfolding stamp_counted
stamp_counted_id now n t = refl

triaged_eq : (a : TicketStatus) → a ≡ triaged → ticket_eq a triaged ≡ true
triaged_eq a h = rw h refl

restored :
    (k now : ℕ) (t : Ticket) (ts : List Ticket)
    → find_ticket k ts ≡ some t
    → t.status ≡ triaged
    → update_ticket k
        (unwind_guard now)
        (restore t.last_agent_run_at)
        (update_ticket k always (stamp now) ts).0
      ≡ (ts, true)
unfolding find_ticket update_ticket stamp restore unwind_guard
restored k now t [] h a = absurd (cc)
restored k now t (u ∷ ts) h a = elim (Bool-cases (u.id == k)) [
  | inl here ↦
      let h' : some u ≡ some t = rw here at h in
      let same_row : t ≡ u = cc in
      let a' : ticket_eq u.status triaged ≡ true = rw same_row at (triaged_eq t.status a) in
      rw (here, same_row, a', ==_refl now, here) refl
  | inr there ↦ let h' = rw there at h in rw (there, restored k now t ts h' a, there) refl
]

module _ (day_of : ℕ → ℕ) where
  -- A row that is `triaged`, claimed, without newer mail and not stuck, is left alone.
  claim_locked_quiet :
      (t : Ticket) (k now : ℕ) (s : Tables)
      → t.status ≡ triaged
      → t.agent_failure_count < 2
      → never_run t ≡ false
      → new_inbound t ≡ false
      → stuck t now ≡ false
      → claim_locked day_of t k now s ≡ (refused watermark, s)
  unfolding claim_locked
  claim_locked_quiet t k now s a b c d e = ground arith

  claim_ticket_found :
      (k now : ℕ) (s : Tables) (t : Ticket)
      → find_ticket k s.tickets ≡ some t
      → claim_ticket day_of k now s ≡ claim_locked day_of t k now s
  unfolding claim_ticket
  claim_ticket_found k now s t h = rw h refl

  claimed_again :
      (k now now' : ℕ) (s s' : Tables) (t : Ticket)
      → find_ticket k s'.tickets ≡ some t
      → t.status ≡ triaged
      → t.agent_failure_count < 2
      → t.last_agent_run_at ≡ some now
      → before (some now) t.last_inbound_at ≡ false
      → now' ≤ now + stuck_after
      → claim_ticket day_of k now' s' ≡ (refused watermark, s')
  claimed_again k now now' s s' t h a b c d e =
      claim_ticket_found k now' s' t h
      ∙ claim_locked_quiet t k now' s' a b (rw c refl) (rw c d)
          (rw c (young now now' t.last_agent_finished_at e))

  stamped_row :
      (k now : ℕ) (s s' : Tables) (t : Ticket) (c : Claim)
      → find_ticket k s.tickets ≡ some t
      → Free t k now s s' c
      → find_ticket k s'.tickets ≡ some (stamp now t)
  stamped_row k now s s' t c h f =
      rw (f.tables, find_ticket-update always (stamp now) (stamp_id now) k s.tickets, h) refl

  row_after_stuck :
      (k now : ℕ) (s s' : Tables) (t : Ticket) (c : Claim)
      → find_ticket k s.tickets ≡ some t
      → Charged t k now s s' c
      → find_ticket k s'.tickets ≡ some (stamp_counted now 1 t)
  row_after_stuck k now s s' t c h f =
      rw
        (
          f.tables,
          find_ticket-update always (stamp_counted now 1) (stamp_counted_id now 1) k s.tickets,
          h,
        )
        refl

  -- After a granted claim, a claim of the same ticket within the next twenty minutes is refused by the
  -- watermark and writes nothing, as long as the thread that was claimed had no message newer than
  -- the claim.
  pub claim_ticket_excludes :
      (k now now' : ℕ) (s : Tables) (c : Claim)
      → (claim_ticket day_of k now s).0 ≡ claimed c
      → before (some now) c.thread_snapshot_at ≡ false
      → now' ≤ now + stuck_after
      → claim_ticket day_of k now' (claim_ticket day_of k now s).1
        ≡ (refused watermark, (claim_ticket day_of k now s).1)
  unfolding stamp stamp_counted
  claim_ticket_excludes k now now' s c e old soon =
      let (t, h, a, b, r) = claim_ticket-cases day_of k now s c e in
      elim r [
        | inl f ↦
            claimed_again k now now' s _ (stamp now t) (stamped_row k now s _ t c h f) a b refl
              (rw f.claim at old) soon
        | inr f ↦
            claimed_again k now now' s _ (stamp_counted now 1 t) (row_after_stuck k now s _ t c h f)
              a (omega arith) refl (rw f.claim at old) soon
      ]

  -- A claim that charged no failure is undone to the letter by `unwind_claim_stamp` with the two
  -- stamps that it returned.
  pub unwind_claim_stamp-claim_ticket :
      (k now : ℕ) (s : Tables) (c : Claim)
      → (claim_ticket day_of k now s).0 ≡ claimed c
      → c.stuck_claim ≡ false
      → unwind_claim_stamp k c.stamped_last_agent_run_at c.prior_last_agent_run_at
          (claim_ticket day_of k now s).1
        ≡ (true, s)
  unfolding unwind_claim_stamp
  unwind_claim_stamp-claim_ticket k now s c e free =
      let (t, h, a, b, r) = claim_ticket-cases day_of k now s c e in
      elim r [
        | inl f ↦ rw (f.tables, f.claim) (let back = restored k now t s.tickets h a in rw back refl)
        | inr f ↦ let x : true ≡ false = rw f.claim at free in absurd (cc)
      ]
