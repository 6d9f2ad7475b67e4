-- ===== src/Db/Metering/Books.antt =====
-- packages/db/src/metering.ts: the counters against the booked calls.
use ai_email_support_agent.Base.{
  ℕ, ◌+◌, Bool, true, false, Option, none, List, [], ◌∷◌, ◌++◌, ◌≡◌, refl, inl, inr, arith, leb,
  ◌==◌, ◌&&◌, if◌then◌else◌, Bool-cases, length, length-append, nat_eq, Distinct, Distinct-snoc,
  has, map,
}
use ai_email_support_agent.Core.Billing.{LlmMode, managed, byok}
use ai_email_support_agent.Db.Metering.{
  Meter, Counter, MeterRecord, Usage, meter_place, meter_eq, at_key, in_window, below_end,
  bump_meter, sum_meter, has_call, record_call, cost_meter, input_of, llm_calls, llm_cost_micros,
  llm_cost_micros_byok, llm_input_tokens, llm_output_tokens,
}

-- What a bump adds to a sum: the amount, where the meter and the day are the sum's.
abbrev pub share : Meter → ℕ → ℕ → Meter → ℕ → Option ℕ → ℕ
share m day delta meter from_day to_day =
    if meter_eq m meter && leb from_day day && below_end day to_day then delta else 0

and_left : (a b : Bool) → (a && b) ≡ true → a ≡ true
and_left a b h = ground arith

and_right : (a b : Bool) → (a && b) ≡ true → b ≡ true
and_right a b h = ground arith

eq_of : (a b : ℕ) → (a == b) ≡ true → a ≡ b
eq_of a b h = ground arith

-- A row at the key is in the same windows as the key.
in_window-key :
    (day : ℕ) (m meter : Meter) (from_day : ℕ) (to_day : Option ℕ) (c : Counter)
    → at_key day m c ≡ true
    → in_window meter from_day to_day c
      ≡ (meter_eq m meter && leb from_day day && below_end day to_day)
in_window-key day m meter from_day to_day c h =
    let same_day : c.day ≡ day = eq_of c.day day (and_left (c.day == day) (meter_eq c.meter m) h) in
    let same_meter : meter_place c.meter ≡ meter_place m =
      eq_of (meter_place c.meter) (meter_place m)
        (and_right (c.day == day) (meter_eq c.meter m) h) in
    rw (same_meter, same_day) refl

add_first :
    (v d r : ℕ) (w : Bool)
    → (if w then v + d + r else r) ≡ (if w then v + r else r) + (if w then d else 0)
add_first v d r w = ground arith

first_row : (d : ℕ) (w : Bool) → (if w then d + 0 else 0) ≡ 0 + (if w then d else 0)
first_row d w = ground arith

add_later :
    (v r d : ℕ) (w : Bool) → (if w then v + (r + d) else r + d) ≡ (if w then v + r else r) + d
add_later v r d w = ground arith

-- A bump adds its amount to every sum whose meter and window cover it, and changes no other sum.
pub sum_meter-bump :
    (day : ℕ) (m : Meter) (delta : ℕ) (meter : Meter) (from_day : ℕ) (to_day : Option ℕ)
    (cs : List Counter)
    → sum_meter meter from_day to_day (bump_meter day m delta cs)
      ≡ sum_meter meter from_day to_day cs + share m day delta meter from_day to_day
unfolding sum_meter bump_meter
sum_meter-bump day m delta meter from_day to_day [] = first_row delta _
sum_meter-bump day m delta meter from_day to_day (c ∷ cs) = elim (Bool-cases (at_key day m c)) [
  | inl key ↦ rw key (
      rw (in_window-key day m meter from_day to_day c key)
        (add_first c.value delta (sum_meter meter from_day to_day cs) _))
  | inr off ↦
      rw (off, sum_meter-bump day m delta meter from_day to_day cs)
        (add_later c.value (sum_meter meter from_day to_day cs) _ _)
]

-- The sum of an amount over the booked calls.
unfoldable pub total : (MeterRecord → ℕ) → List MeterRecord → ℕ
total f [] = 0
total f (c ∷ cs) = f c + total f cs

total-snoc :
    (f : MeterRecord → ℕ) (cs : List MeterRecord) (c : MeterRecord)
    → total f (cs ++ c ∷ []) ≡ total f cs + f c
unfolding total
total-snoc f [] c = omega arith
total-snoc f (x ∷ cs) c = omega (arith, total-snoc f cs c)

abbrev pub cost_in : LlmMode → MeterRecord → ℕ
cost_in byok r = elim r.mode [ byok ↦ r.cost_micros | managed ↦ 0 ]
cost_in managed r = elim r.mode [ byok ↦ 0 | managed ↦ r.cost_micros ]

abbrev pub all_time : Meter → List Counter → ℕ
all_time m cs = sum_meter m 0 none cs

-- The counters of all days together say what the booked calls say.
pub record Balanced (s : Usage) : Type 0 where
  pub calls : all_time llm_calls s.counters ≡ length s.calls
  pub managed_cost : all_time llm_cost_micros s.counters ≡ total (cost_in managed) s.calls
  pub byok_cost : all_time llm_cost_micros_byok s.counters ≡ total (cost_in byok) s.calls
  pub input : all_time llm_input_tokens s.counters ≡ total input_of s.calls
  pub output : all_time llm_output_tokens s.counters ≡ total (λ r. r.output_tokens) s.calls
  pub once : Distinct (map (λ r. r.idempotency_key) s.calls)

has_call-has :
    (k : ℕ) (cs : List MeterRecord)
    → has_call k cs ≡ has (map (λ (r : MeterRecord). r.idempotency_key) cs) k
unfolding has_call
has_call-has k [] = refl
has_call-has k (c ∷ cs) = ground (arith, has_call-has k cs)

map-snoc :
    (cs : List MeterRecord) (r : MeterRecord) (f : MeterRecord → ℕ)
    → map f (cs ++ r ∷ []) ≡ map f cs ++ f r ∷ []
map-snoc [] r f = refl
map-snoc (c ∷ cs) r f = rw (map-snoc cs r f) refl

-- What the four bumps of a call add to a sum over all time.
bumps :
    (day : ℕ) (r : MeterRecord) (m : Meter) (cs : List Counter)
    → all_time m (
        bump_meter day llm_output_tokens r.output_tokens (
          bump_meter day llm_input_tokens
            (input_of r)
            (bump_meter day (cost_meter r.mode) r.cost_micros (bump_meter day llm_calls 1 cs))))
      ≡ all_time m cs
        + share llm_calls day 1 m 0 none
        + share (cost_meter r.mode) day r.cost_micros m 0 none
        + share llm_input_tokens day (input_of r) m 0 none
        + share llm_output_tokens day r.output_tokens m 0 none
bumps day r m cs =
    rw
      (
        sum_meter-bump day llm_output_tokens r.output_tokens m 0 none,
        sum_meter-bump day llm_input_tokens (input_of r) m 0 none,
        sum_meter-bump day (cost_meter r.mode) r.cost_micros m 0 none,
        sum_meter-bump day llm_calls 1 m 0 none,
      )
      refl

from_zero : (d : ℕ) → leb 0 d ≡ true
from_zero d = ground arith

booked_before :
    (day : ℕ) (r : MeterRecord) (s : Usage)
    → has_call r.idempotency_key s.calls ≡ true
    → record_call day r s ≡ s
unfolding record_call
booked_before day r s old = rw old refl

has_call-snoc :
    (r : MeterRecord) (cs : List MeterRecord) → has_call r.idempotency_key (cs ++ r ∷ []) ≡ true
unfolding has_call
has_call-snoc r [] = ground arith
has_call-snoc r (c ∷ cs) = ground (arith, has_call-snoc r cs)

call_kept :
    (day : ℕ) (r : MeterRecord) (s : Usage)
    → has_call r.idempotency_key (record_call day r s).calls ≡ true
unfolding record_call
call_kept day r s = elim (Bool-cases (has_call r.idempotency_key s.calls)) [
  | inl old ↦ rw old old
  | inr new ↦ rw new (has_call-snoc r s.calls)
]

module _ (day : ℕ) (r : MeterRecord) (s : Usage) (b : Balanced s) where
  booked : has_call r.idempotency_key s.calls ≡ false → Balanced (record_call day r s)
  unfolding record_call
  booked new = rw new (record {
    calls = rw (bumps day r llm_calls s.counters, from_zero, length-append, b.calls) (ground arith);
    managed_cost =
        rw (bumps day r llm_cost_micros s.counters, from_zero, total-snoc, b.managed_cost)
          (ground arith);
    byok_cost =
        rw (bumps day r llm_cost_micros_byok s.counters, from_zero, total-snoc, b.byok_cost)
          (ground arith);
    input =
        rw (bumps day r llm_input_tokens s.counters, from_zero, total-snoc, b.input) (ground arith);
    output =
        rw (bumps day r llm_output_tokens s.counters, from_zero, total-snoc, b.output)
          (ground arith);
    once = rw map-snoc (Distinct-snoc _ _ b.once (rw (← has_call-has) new));
  })

-- Booking a call keeps the counters and the calls in agreement, on any day, for a call that is new and
-- for one that was booked before: each key is booked once, and a tenant's own spend never reaches the
-- platform's cost meter.
pub record_call-Balanced :
    (day : ℕ) (r : MeterRecord) (s : Usage) → Balanced s → Balanced (record_call day r s)
record_call-Balanced day r s b = elim (Bool-cases (has_call r.idempotency_key s.calls)) [
  | inl old ↦ rw (booked_before day r s old) b
  | inr new ↦ booked day r s b new
]

-- A call that is delivered again, on whatever day, changes nothing.
pub record_call_again :
    (day day' : ℕ) (r : MeterRecord) (s : Usage)
    → record_call day' r (record_call day r s) ≡ record_call day r s
record_call_again day day' r s = booked_before day' r (record_call day r s) (call_kept day r s)
