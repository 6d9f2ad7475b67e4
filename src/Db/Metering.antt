-- ===== src/Db/Metering.antt =====
-- packages/db/src/metering.ts: the daily usage counters of one workspace and the sink that books one
-- model call. A UTC day is its number: the source's `YYYY-MM-DD` texts compare the same way.
pub mod Books
use ai_email_support_agent.Base.{
  ℕ, ◌+◌, Bool, true, false, Option, none, some, List, [], ◌∷◌, ◌++◌, leb, ltb, ◌==◌, ◌&&◌,
  if◌then◌else◌,
}
use ai_email_support_agent.Core.Billing.{LlmMode, managed, byok}

pub data Meter : Type 0 where
  llm_calls llm_cost_micros llm_cost_micros_byok llm_input_tokens llm_output_tokens : Meter
  draft_runs review_sends ai_handled_conversations auto_sends ai_handled_managed : Meter

abbrev pub meter_place : Meter → ℕ
meter_place llm_calls = 0
meter_place llm_cost_micros = 1
meter_place llm_cost_micros_byok = 2
meter_place llm_input_tokens = 3
meter_place llm_output_tokens = 4
meter_place draft_runs = 5
meter_place review_sends = 6
meter_place ai_handled_conversations = 7
meter_place auto_sends = 8
meter_place ai_handled_managed = 9

abbrev pub meter_eq : Meter → Meter → Bool
meter_eq a b = meter_place a == meter_place b

-- A row of `usage_counters`, whose primary key is the day and the meter.
pub record Counter : Type 0 where
  pub day : ℕ
  pub meter : Meter
  pub value : ℕ

abbrev pub at_key : ℕ → Meter → Counter → Bool
at_key day meter c = c.day == day && meter_eq c.meter meter

-- `INSERT … ON CONFLICT (org_id, day, meter) DO UPDATE SET value = value + delta`
unfoldable pub bump_meter : ℕ → Meter → ℕ → List Counter → List Counter
bump_meter day meter delta [] = record { day = day; meter = meter; value = delta } ∷ []
bump_meter day meter delta (c ∷ cs) =
    let rest = bump_meter day meter delta cs in
    if at_key day meter c then record c { value = c.value + delta } ∷ cs else c ∷ rest

abbrev pub below_end : ℕ → Option ℕ → Bool
below_end day none = true
below_end day (some end) = ltb day end

abbrev pub in_window : Meter → ℕ → Option ℕ → Counter → Bool
in_window meter from_day to_day c =
    meter_eq c.meter meter && leb from_day c.day && below_end c.day to_day

-- `coalesce(sum(value), 0)` over `[from_day, to_day)`, open-ended where `to_day` is `none`.
unfoldable pub sum_meter : Meter → ℕ → Option ℕ → List Counter → ℕ
sum_meter meter from_day to_day [] = 0
sum_meter meter from_day to_day (c ∷ cs) =
    let rest = sum_meter meter from_day to_day cs in
    if in_window meter from_day to_day c then c.value + rest else rest

-- The fields of a MeterRecord that reach a counter or the uniqueness of the call.
pub record MeterRecord : Type 0 where
  pub idempotency_key : ℕ
  pub mode : LlmMode
  pub cost_micros : ℕ
  pub input_tokens : ℕ
  pub cache_read_tokens : ℕ
  pub cache_write_tokens : ℕ
  pub output_tokens : ℕ

pub record Usage : Type 0 where
  pub calls : List MeterRecord
  pub counters : List Counter

unfoldable pub has_call : ℕ → List MeterRecord → Bool
has_call k [] = false
has_call k (c ∷ cs) = if c.idempotency_key == k then true else has_call k cs

abbrev pub cost_meter : LlmMode → Meter
cost_meter byok = llm_cost_micros_byok
cost_meter managed = llm_cost_micros

abbrev pub input_of : MeterRecord → ℕ
input_of r = r.input_tokens + r.cache_read_tokens + r.cache_write_tokens

-- The body of the sink's transaction. An error of the database rolls it back and is swallowed.
unfoldable pub record_call : ℕ → MeterRecord → Usage → Usage
record_call day r s = if has_call r.idempotency_key s.calls then s else record {
  calls = s.calls ++ r ∷ [];
  counters = bump_meter day llm_output_tokens r.output_tokens (
      bump_meter day llm_input_tokens (input_of r)
        (bump_meter day (cost_meter r.mode) r.cost_micros (bump_meter day llm_calls 1 s.counters)));
}
