-- ===== src/Core/Billing/Stamps.antt =====
-- packages/core/src/billing.ts: the stamp of a counted ticket and its billing period.
use ai_email_support_agent.Base.{
  ℕ, ◌≤◌, true, false, some, List, [], ◌∷◌, ◌≡◌, refl, sym, arith, ◌↔◌, ap, take, length,
  length-take, drop, zero, suc, ◌+◌, ◌-◌, leb, ◌&&◌, ◌||◌, ◌==◌, Bool-cases, inl, inr,
}
use ai_email_support_agent.Core.Billing.{
  text_eq, handled_period_stamp, handled_period_stamps, ends_with, is_handled_in_period,
}

pub text_eq_refl : (s : List ℕ) → text_eq s s ≡ true
text_eq_refl [] = refl
text_eq_refl (a ∷ s) = ground (arith, text_eq_refl s)

pub text_eq→eq : (s t : List ℕ) → text_eq s t ≡ true → s ≡ t
text_eq→eq [] [] h = refl
text_eq→eq [] (b ∷ t) h = cc
text_eq→eq (a ∷ s) [] h = cc
text_eq→eq (a ∷ s) (b ∷ t) h = ground (arith, text_eq→eq s t)

take-take {ℓ} : {A : Type ℓ} (n k : ℕ) (xs : List A) → n ≤ k → take n (take k xs) ≡ take n xs
take-take zero k xs h = refl
take-take (suc n) zero xs h = absurd (omega arith)
take-take (suc n) (suc k) [] h = refl
take-take (suc n) (suc k) (x ∷ xs) h = rw (take-take n k xs (omega arith))

take_nil {ℓ} : {A : Type ℓ} (k : ℕ) → take {A = A} k [] ≡ []
take_nil zero = refl
take_nil (suc k) = refl

drop-take {ℓ} :
    {A : Type ℓ} (n k m : ℕ) (xs : List A) → m ≡ n + k → drop n (take m xs) ≡ take k (drop n xs)
drop-take zero k m xs h = let e : m ≡ k = omega arith in rw e refl
drop-take (suc n) k zero xs h = absurd (omega arith)
drop-take (suc n) k (suc m) [] h = rw (take_nil k)
drop-take (suc n) k (suc m) (x ∷ xs) h = drop-take n k m xs (omega arith)

text_eq_iff : (s t : List ℕ) → (text_eq s t ≡ true) ↔ (s ≡ t)
text_eq_iff s t = (text_eq→eq s t, λ e. rw e (text_eq_refl t))

text_eq_ne : (s t : List ℕ) → (length s == length t) ≡ false → text_eq s t ≡ false
text_eq_ne s t h = elim (Bool-cases (text_eq s t)) [
  | inl same ↦ let e : length s ≡ length t = ap length (text_eq→eq s t same) in ground arith
  | inr other ↦ other
]

module _ (to_iso_string : ℕ → List ℕ) (long : (d : ℕ) → 10 ≤ length (to_iso_string d)) where
  stamp-length : (d : ℕ) → length (handled_period_stamp to_iso_string d) ≡ 10
  unfolding handled_period_stamp
  stamp-length d = omega (arith, length-take 10 (to_iso_string d), long d)

  day-length : (d : ℕ) → length (take 10 (to_iso_string d)) ≡ 10
  day-length d = omega (arith, length-take 10 (to_iso_string d), long d)

  month-length : (d : ℕ) → length (take 7 (to_iso_string d)) ≡ 7
  month-length d = omega (arith, length-take 7 (to_iso_string d), long d)

  month-ne-day : (p q : ℕ) → text_eq (take 7 (to_iso_string p)) (take 10 (to_iso_string q)) ≡ false
  month-ne-day p q =
      text_eq_ne (take 7 (to_iso_string p)) (take 10 (to_iso_string q))
        (ground (arith, month-length p, day-length q))

  day-ne-month : (p q : ℕ) → text_eq (take 10 (to_iso_string p)) (take 7 (to_iso_string q)) ≡ false
  day-ne-month p q =
      text_eq_ne (take 10 (to_iso_string p)) (take 7 (to_iso_string q))
        (ground (arith, day-length p, month-length q))

  abbrev first : List ℕ
  first = b'-' ∷ b'0' ∷ b'1' ∷ []

  stamp-ends :
      (p : ℕ)
      → ends_with (handled_period_stamp to_iso_string p) first
        ≡ text_eq (take 3 (drop 7 (to_iso_string p))) first
  unfolding handled_period_stamp
  stamp-ends p =
      let n : length (take 10 (to_iso_string p)) - 3 ≡ 7 = omega (arith, stamp-length p) in
      let l : leb 3 (length (take 10 (to_iso_string p))) ≡ true = ground (arith, stamp-length p) in
      rw (l, n, drop-take 7 3 10 (to_iso_string p) refl) refl

  -- What counts: the stamp of the period, and its month where the period starts on a first day.
  handled :
      (p : ℕ) (stored : List ℕ)
      → is_handled_in_period to_iso_string (some stored) p ≡ (
          text_eq (take 10 (to_iso_string p)) stored
          || (text_eq (take 3 (drop 7 (to_iso_string p))) first
              && text_eq (take 7 (to_iso_string p)) stored))
  unfolding is_handled_in_period handled_period_stamps handled_period_stamp
  handled p stored =
      rw (stamp-ends p, take-take 7 10 (to_iso_string p) (omega arith)) (ground arith)

  -- For ISO texts that have their ten date characters: a ticket stamped in one period counts as handled
  -- in another exactly when the two periods start on one UTC date; and a ticket with the older stamp, the
  -- month of a date, counts exactly when the period starts in that month, on its first day.
  pub is_handled-date_iff :
      (p q : ℕ)
      → ((is_handled_in_period to_iso_string (some (handled_period_stamp to_iso_string q)) p ≡ true)
          ↔ (take 10 (to_iso_string q) ≡ take 10 (to_iso_string p)))
        × ((is_handled_in_period to_iso_string (some (take 7 (to_iso_string q))) p ≡ true) ↔ (
            (take 7 (to_iso_string q) ≡ take 7 (to_iso_string p))
            × (take 3 (drop 7 (to_iso_string p)) ≡ first)))
  unfolding handled_period_stamp
  is_handled-date_iff p q =
      let day = text_eq_iff (take 10 (to_iso_string p)) (take 10 (to_iso_string q)) in
      let month = text_eq_iff (take 7 (to_iso_string p)) (take 7 (to_iso_string q)) in
      let first_day = text_eq_iff (take 3 (drop 7 (to_iso_string p))) first in
      (
        (
          λ h.
              sym (
                day.0 (ground (arith, handled p (take 10 (to_iso_string q)), month-ne-day p q, h))),
          λ e. ground (arith, handled p (take 10 (to_iso_string q)), day.1 (sym e)),
        ),
        (
          λ h.
              let both : (text_eq (take 3 (drop 7 (to_iso_string p))) first
                    && text_eq (take 7 (to_iso_string p)) (take 7 (to_iso_string q)))
                  ≡ true =
                ground (arith, handled p (take 7 (to_iso_string q)), day-ne-month p q, h) in
              (sym (month.0 (ground (arith, both))), first_day.0 (ground (arith, both))),
          λ e.
              ground
                (arith, handled p (take 7 (to_iso_string q)), month.1 (sym e.0), first_day.1 e.1),
        ),
      )
