-- ===== src/Llm/Limiter.antt =====
-- packages/llm/src/core/limiter.ts: the concurrency limiter of one key; the source keeps one such state
-- for each key. A caller is a number, given in order of arrival; `unreleased` holds the callers whose
-- release function exists and has not been called, which is the closure's flag `released`.
pub mod Fifo
use ai_email_support_agent.Base.{
  ℕ, zero, suc, ◌+◌, ◌-◌, Bool, Option, none, some, List, [], ◌∷◌, ◌++◌, ◌==◌, ltb, if◌then◌else◌,
  has, nat_eq,
}

pub record KeyState : Type 0 where
  pub active : ℕ
  pub queue : List ℕ
  pub unreleased : List ℕ
  pub arrivals : ℕ

unfoldable pub idle : KeyState
idle = record { active = 0; queue = []; unreleased = []; arrivals = 0 }

unfoldable pub remove : ℕ → List ℕ → List ℕ
remove a [] = []
remove a (x ∷ xs) = let rest = remove a xs in if x == a then xs else x ∷ rest

-- Each answers the caller that gets a slot by it, if one does.
unfoldable pub acquire : ℕ → KeyState → Option ℕ × KeyState
acquire max_concurrent_per_key s =
    if ltb s.active max_concurrent_per_key
    then (
      some s.arrivals,
      record s {
        active = s.active + 1;
        unreleased = s.unreleased ++ s.arrivals ∷ [];
        arrivals = suc s.arrivals;
      },
    )
    else (none, record s { queue = s.queue ++ s.arrivals ∷ []; arrivals = suc s.arrivals })

-- `queue.shift()`: the slot goes to the earliest waiter, or becomes free.
unfoldable pub hand_on : List ℕ → KeyState → Option ℕ × KeyState
hand_on [] s = (none, record s { active = s.active - 1 })
hand_on (next ∷ queue) s =
    (some next, record s { queue = queue; unreleased = s.unreleased ++ next ∷ [] })

unfoldable pub release : ℕ → KeyState → Option ℕ × KeyState
release caller s =
    if has s.unreleased caller
    then hand_on s.queue (record s { unreleased = remove caller s.unreleased })
    else (none, s)
