-- ===== src/Worker/Gate/Caps.antt =====
-- apps/worker/src/drafting/caps.ts: how a gate ends, and what it counts.
use ai_email_support_agent.Base.{
  ℕ, ◌+◌, ◌≤◌, ◌<◌, Bool, true, false, none, some, List, [], ◌∷◌, ◌++◌, ◌≡◌, refl, leb, ◌==◌, ◌&&◌,
  ◌⊎◌, inl, inr, if◌then◌else◌, Bool-cases, Option-cases, arith, ==_refl,
}
use ai_email_support_agent.Core.Settings.{
  WrongKind, Value, resolve_setting, amount, daily_draft_cap, daily_llm_usd_cap,
}
use ai_email_support_agent.Db.Metering.{
  Counter, bump_meter, at_key, Meter, meter_place, draft_runs, llm_cost_micros,
}
use ai_email_support_agent.Db.Tables.{AgentRun}
use ai_email_support_agent.Worker.Gate.{
  GateParams, GateOutcome, org_spend_capped, org_draft_capped, daily, Ledger, Gated, proceed,
  gate_and_record_run, gate_org, gate_trial, with_cap, record_run, ticket_cap, count, is_live,
  is_draft, for_ticket, draft_of_ticket_since, utc_day, utc_midnight, meter_value, trial_total_of,
  trial_budget, trial_budget_applies, usd_cap_to_micros, per_org_draft_concurrency,
}

-- The draft runs of a ticket that started in one UTC day.
abbrev pub draft_in_day : ℕ → ℕ → AgentRun → Bool
draft_in_day k day r = is_draft r.kind && for_ticket r.ticket_id k && utc_day r.started_at == day

since_midnight : (now started : ℕ) → utc_day started ≡ utc_day now → utc_midnight now ≤ started
since_midnight now started h = omega arith

pub count-le :
    (k now : ℕ) (rs : List AgentRun)
    → count (draft_in_day k (utc_day now)) rs
      ≤ count (draft_of_ticket_since k (utc_midnight now)) rs
unfolding count
count-le k now [] = omega arith
count-le k now (r ∷ rs) = ground (arith, count-le k now rs, since_midnight now r.started_at)

pub count-snoc :
    (test : AgentRun → Bool) (rs : List AgentRun) (r : AgentRun)
    → count test (rs ++ r ∷ []) ≡ count test rs + (if test r then 1 else 0)
unfolding count
count-snoc test [] r = ground arith
count-snoc test (x ∷ rs) r = ground (arith, count-snoc test rs r)

at_key_refl :
    (day : ℕ) (m : Meter) (v : ℕ) → at_key day m (record { day = day; meter = m; value = v }) ≡ true
at_key_refl day m v = rw (==_refl day, ==_refl (meter_place m)) refl

pub meter_value-bump :
    (day : ℕ) (m : Meter) (delta : ℕ) (cs : List Counter)
    → meter_value day m (bump_meter day m delta cs) ≡ meter_value day m cs + delta
unfolding meter_value bump_meter
meter_value-bump day m delta [] = rw (at_key_refl day m delta) (omega arith)
meter_value-bump day m delta (c ∷ cs) = elim (Bool-cases (at_key day m c)) [
  | inl key ↦ rw (key, key) refl
  | inr off ↦ rw (off, off, meter_value-bump day m delta cs) refl
]

-- A cap that resolves and is not reached.
abbrev pub Below : WrongKind ⊎ Value → (ℕ → ℕ) → ℕ → Type 0
Below cap scale used = (v : Value) × (cap ≡ inr v) × (used < scale (amount v))

-- What the gate checked before it let a run through.
pub record Admitted (p : GateParams) (s : Ledger) : Type 0 where
  pub ticket : ticket_cap p.ticket_id p s ≡ none
  pub live : count (is_live p.now) s.runs < per_org_draft_concurrency
  pub drafts :
      Below
        (resolve_setting daily_draft_cap p.settings.org p.settings.plan)
        (λ n. n)
        (meter_value (utc_day p.now) draft_runs s.counters)
  pub spend :
      Below
        (resolve_setting daily_llm_usd_cap p.settings.org p.settings.plan)
        usd_cap_to_micros
        (meter_value (utc_day p.now) llm_cost_micros s.counters)
  pub trial : (trial_budget_applies p.settings.state ≡ false) ⊎ (trial_total_of p s < trial_budget)

abbrev pub is_proceed : GateOutcome → Bool
is_proceed (proceed n) = true
is_proceed _ = false

sum-cases : (c : WrongKind ⊎ Value) → ((w : WrongKind) × (c ≡ inl w)) ⊎ ((v : Value) × (c ≡ inr v))
sum-cases (inl w) = inl (w, refl)
sum-cases (inr v) = inr (v, refl)

-- The two ways that a gate ends without an error.
abbrev pub Ended : GateParams → Ledger → GateOutcome → Ledger → Type 0
Ended p s o s' =
    (is_proceed o ≡ false) × (s' ≡ s)
    ⊎ Admitted p s × (o ≡ proceed s.next_run) × (s' ≡ (record_run p s).1)

abbrev gated : GateOutcome × Ledger → Gated
gated a = inr a

-- The ending of a gate that is known to end so.
ended :
    (p : GateParams) (s : Ledger) (a b : GateOutcome × Ledger)
    → Ended p s b.0 b.1
    → gated b ≡ gated a
    → Ended p s a.0 a.1
ended p s a b h e = let same_pair : b ≡ a = cc in rw (← same_pair) h

gate_trial-Ended :
    (p : GateParams) (s : Ledger)
    → ticket_cap p.ticket_id p s ≡ none
    → count (is_live p.now) s.runs < per_org_draft_concurrency
    → Below
        (resolve_setting daily_draft_cap p.settings.org p.settings.plan)
        (λ n. n)
        (meter_value (utc_day p.now) draft_runs s.counters)
    → Below
        (resolve_setting daily_llm_usd_cap p.settings.org p.settings.plan)
        usd_cap_to_micros
        (meter_value (utc_day p.now) llm_cost_micros s.counters)
    → Ended p s (gate_trial p s).0 (gate_trial p s).1
unfolding gate_trial record_run
gate_trial-Ended p s t l d u =
    elim (Bool-cases
      (trial_budget_applies p.settings.state && leb trial_budget (trial_total_of p s))) [
        | inl over ↦ rw over (inl (refl, refl))
        | inr room ↦ rw room (
            inr (
              record { ticket = t; live = l; drafts = d; spend = u; trial = ground arith },
              refl,
              refl,
            ))
      ]

-- What is left of the gate after the concurrency check, and after the draft cap.
abbrev spend_part : GateParams → Ledger → Gated
spend_part p s = with_cap (resolve_setting daily_llm_usd_cap p.settings.org p.settings.plan) (λ usd.
    let cost = meter_value (utc_day p.now) llm_cost_micros s.counters in
    if leb (usd_cap_to_micros usd) cost
    then inr (org_spend_capped daily cost, s)
    else inr (gate_trial p s))

spend_step :
    (p : GateParams) (s : Ledger) (o : GateOutcome) (s' : Ledger)
    → ticket_cap p.ticket_id p s ≡ none
    → count (is_live p.now) s.runs < per_org_draft_concurrency
    → Below
        (resolve_setting daily_draft_cap p.settings.org p.settings.plan)
        (λ n. n)
        (meter_value (utc_day p.now) draft_runs s.counters)
    → spend_part p s ≡ inr (o, s')
    → Ended p s o s'
spend_step p s o s' t l d e =
    elim (sum-cases (resolve_setting daily_llm_usd_cap p.settings.org p.settings.plan)) [
      | inl (w, bad) ↦ let e' = rw bad at e in absurd (cc)
      | inr (v, good) ↦
          elim (Bool-cases (
            leb (usd_cap_to_micros (amount v))
              (meter_value (utc_day p.now) llm_cost_micros s.counters))) [
                | inl over ↦ ended p s (o, s') _ (inl (refl, refl)) (rw (good, over) at e)
                | inr room ↦
                    ended p s (o, s') _ (gate_trial-Ended p s t l d (v, good, ground arith))
                      (rw (good, room) at e)
              ]
    ]

drafts_step :
    (p : GateParams) (s : Ledger) (o : GateOutcome) (s' : Ledger)
    → ticket_cap p.ticket_id p s ≡ none
    → count (is_live p.now) s.runs < per_org_draft_concurrency
    → with_cap (resolve_setting daily_draft_cap p.settings.org p.settings.plan) (λ drafts.
      if leb drafts (meter_value (utc_day p.now) draft_runs s.counters)
      then inr (org_draft_capped, s)
      else spend_part p s)
      ≡ inr (o, s')
    → Ended p s o s'
drafts_step p s o s' t l e =
    elim (sum-cases (resolve_setting daily_draft_cap p.settings.org p.settings.plan)) [
      | inl (w, bad) ↦ let e' = rw bad at e in absurd (cc)
      | inr (v, good) ↦
          elim (Bool-cases (leb (amount v) (meter_value (utc_day p.now) draft_runs s.counters))) [
            | inl over ↦ ended p s (o, s') _ (inl (refl, refl)) (rw (good, over) at e)
            | inr room ↦ spend_step p s o s' t l (v, good, ground arith) (rw (good, room) at e)
          ]
    ]

-- A ticket's own cap never answers `proceed`.
not_proceed :
    (p : GateParams) (s : Ledger) (o : GateOutcome)
    → ticket_cap p.ticket_id p s ≡ some o
    → is_proceed o ≡ false
unfolding ticket_cap
not_proceed p s o h = ground arith

gate_org-Ended :
    (p : GateParams) (s : Ledger) (o : GateOutcome) (s' : Ledger)
    → ticket_cap p.ticket_id p s ≡ none
    → gate_org p s ≡ inr (o, s')
    → Ended p s o s'
unfolding gate_org
gate_org-Ended p s o s' t e =
    elim (Bool-cases (leb per_org_draft_concurrency (count (is_live p.now) s.runs))) [
      | inl busy ↦ ended p s (o, s') _ (inl (refl, refl)) (rw busy at e)
      | inr free ↦ drafts_step p s o s' t (ground arith) (rw free at e)
    ]

-- A gate that answers either refuses and writes nothing, or every cap had room and it writes the run.
pub gate_and_record_run-cases :
    (p : GateParams) (s : Ledger) (o : GateOutcome) (s' : Ledger)
    → gate_and_record_run p s ≡ inr (o, s')
    → Ended p s o s'
unfolding gate_and_record_run
gate_and_record_run-cases p s o s' e = elim (Option-cases (ticket_cap p.ticket_id p s)) [
  | inl room ↦ gate_org-Ended p s o s' room (rw room at e)
  | inr (refusal, capped) ↦
      ended p s (o, s') (refusal, s) (inl (not_proceed p s refusal capped, refl)) (rw capped at e)
]
