-- ===== src/Llm/Limiter/Fifo.antt =====
-- packages/llm/src/core/limiter.ts: any sequence of acquires and releases.
use ai_email_support_agent.Base.{
  ℕ, zero, suc, ◌≤◌, ◌<◌, true, false, Option, none, some, List, [], ◌∷◌, ◌++◌, ◌==◌, ltb, has,
  nat_eq, length, length-append, ◌≡◌, refl, ◌∙◌, ◌⊎◌, inl, inr, arith, Bool-cases, ltb→lt,
}
use mathlib.Core.List.{append_assoc, append-nil}
use ai_email_support_agent.Llm.Limiter.{KeyState, idle, remove, acquire, hand_on, release}

pub data Call : Type 0 where
  call_acquire : Call
  call_release : ℕ → Call

-- The state, and the callers in the order in which they were granted a slot.
pub record Log : Type 0 where
  pub state : KeyState
  pub granted : List ℕ

abbrev pub note : List ℕ → Option ℕ × KeyState → Log
note granted (none, s) = record { state = s; granted = granted }
note granted (some c, s) = record { state = s; granted = granted ++ c ∷ [] }

unfoldable pub step : ℕ → Log → Call → Log
step max l call_acquire = note l.granted (acquire max l.state)
step max l (call_release caller) = note l.granted (release caller l.state)

unfoldable pub run : ℕ → Log → List Call → Log
run max l [] = l
run max l (c ∷ cs) = run max (step max l c) cs

-- 0, 1, …, n - 1
unfoldable pub up_to : ℕ → List ℕ
up_to zero = []
up_to (suc n) = up_to n ++ n ∷ []

pub record Fair (max : ℕ) (l : Log) : Type 0 where
  pub held : l.state.active ≡ length l.state.unreleased
  pub bounded : l.state.active ≤ max
  pub busy : (l.state.queue ≡ []) ⊎ (l.state.active ≡ max)
  pub in_order : l.granted ++ l.state.queue ≡ up_to l.state.arrivals

length-remove : (a : ℕ) (xs : List ℕ) → has xs a ≡ true → suc (length (remove a xs)) ≡ length xs
unfolding remove
length-remove a [] h = absurd (cc)
length-remove a (x ∷ xs) h = elim (Bool-cases (x == a)) [
  | inl here ↦ rw here refl
  | inr there ↦
      let h' : has xs a ≡ true = rw there at h in rw there (omega (arith, length-remove a xs h'))
]

at_cap : (a m : ℕ) → ltb a m ≡ false → a ≤ m → a ≡ m
at_cap a m h k = ground arith

module _ (max : ℕ) (l : Log) (f : Fair max l) where
  queue_empty : l.state.active < max → l.state.queue ≡ []
  queue_empty room = elim f.busy [
    | inl empty ↦ empty
    | inr full ↦ absurd (omega (arith, room, full))
  ]

  acquire-Fair : Fair max (note l.granted (acquire max l.state))
  unfolding acquire up_to
  acquire-Fair = elim (Bool-cases (ltb l.state.active max)) [
    | inl free ↦
        let room = ltb→lt l.state.active max free in
        let no_queue = queue_empty room in
        let order = rw (no_queue, append-nil) at f.in_order in
        rw free (record {
          held = omega (arith, f.held, length-append l.state.unreleased (l.state.arrivals ∷ []));
          bounded = omega (arith, room);
          busy = inl no_queue;
          in_order = rw (no_queue, append-nil, order) refl;
        })
    | inr none_free ↦ rw none_free (record {
      held = f.held;
      bounded = f.bounded;
      busy = inr (at_cap l.state.active max none_free f.bounded);
      in_order =
          rw (← append_assoc l.granted l.state.queue (l.state.arrivals ∷ []), f.in_order) refl;
    })
  ]

  hand_on-Fair :
      (caller : ℕ) (queue : List ℕ)
      → l.state.queue ≡ queue
      → has l.state.unreleased caller ≡ true
      → Fair max (
          note l.granted
            (hand_on queue (record l.state { unreleased = remove caller l.state.unreleased })))
  unfolding hand_on
  hand_on-Fair caller [] q h =
      let one_less = length-remove caller l.state.unreleased h in
      record {
        held = omega (arith, f.held, one_less);
        bounded = omega (arith, f.bounded);
        busy = inl q;
        in_order = f.in_order;
      }
  hand_on-Fair caller (next ∷ queue) q h =
      let one_less = length-remove caller l.state.unreleased h in
      let order = rw q at f.in_order in
      record {
        held =
            omega (
              arith,
              f.held,
              one_less,
              length-append (remove caller l.state.unreleased) (next ∷ []),
            );
        bounded = f.bounded;
        busy =
            inr (elim f.busy [
              | inl empty ↦ (let e = rw q at empty in absurd (cc))
              | inr full ↦ full
            ]);
        in_order = append_assoc l.granted (next ∷ []) queue ∙ order;
      }

  release-Fair : (caller : ℕ) → Fair max (note l.granted (release caller l.state))
  unfolding release
  release-Fair caller = elim (Bool-cases (has l.state.unreleased caller)) [
    | inl held ↦ rw held (hand_on-Fair caller l.state.queue refl held)
    | inr released ↦ rw released f
  ]

step-Fair : (max : ℕ) (l : Log) (c : Call) → Fair max l → Fair max (step max l c)
unfolding step
step-Fair max l call_acquire f = acquire-Fair max l f
step-Fair max l (call_release caller) f = release-Fair max l f caller

run-Fair : (max : ℕ) (l : Log) (cs : List Call) → Fair max l → Fair max (run max l cs)
unfolding run
run-Fair max l [] f = f
run-Fair max l (c ∷ cs) f = run-Fair max (step max l c) cs (step-Fair max l c f)

abbrev pub fresh : Log
unfolding idle
fresh = record { state = idle; granted = [] }

fresh-Fair : (max : ℕ) → Fair max fresh
unfolding idle up_to
fresh-Fair max = record { held = refl; bounded = omega arith; busy = inl refl; in_order = refl }

-- Over any calls of `acquire` and of release functions, called once, often or never: the slots in use are
-- the release functions not yet called, and at most the maximum; a caller waits only while every slot
-- is in use; and the callers granted a slot, followed by the queue, are all callers in the order of
-- their arrival.
pub limiter-Fair : (max : ℕ) (calls : List Call) → Fair max (run max fresh calls)
limiter-Fair max calls = run-Fair max fresh calls (fresh-Fair max)
