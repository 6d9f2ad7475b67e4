-- ===== src/Base/Rows.antt =====
-- A table with a primary key: the row of a key, and `UPDATE … WHERE id = … AND guard RETURNING id`.
use Prim.Native.Nat.{ℕ}
use mathlib.Core.Path.{◌≡◌, refl}
use mathlib.Core.Bool.{Bool, true, false}
use mathlib.Core.Option.{Option, none, some}
use mathlib.Core.List.{List, [], ◌∷◌}
use native.Mathlib.Omega.{arith}
use mathlib.Core.Logic.{inl, inr}
use ai_email_support_agent.Base.Tests.{◌==◌, if◌then◌else◌, Bool-cases, ==_iff}

-- What an update does to a row that it reaches, and whether a row came back.
abbrev pub updated {ℓ} : {A : Type ℓ} → (A → Bool) → (A → A) → Option A → Option A
updated guard set none = none
updated guard set (some t) = if guard t then some (set t) else some t

abbrev pub hits {ℓ} : {A : Type ℓ} → (A → Bool) → Option A → Bool
hits guard none = false
hits guard (some t) = guard t

module _ {ℓ} {A : Type ℓ} (id_of : A → ℕ) where
  unfoldable pub find_row : ℕ → List A → Option A
  find_row k [] = none
  find_row k (t ∷ ts) = if id_of t == k then some t else find_row k ts

  -- The rows, and whether one came back.
  unfoldable pub update_row : ℕ → (A → Bool) → (A → A) → List A → List A × Bool
  update_row k guard set [] = ([], false)
  update_row k guard set (t ∷ ts) =
      let (ts', hit) = update_row k guard set ts in
      if id_of t == k
      then (if guard t then (set t ∷ ts, true) else (t ∷ ts, false))
      else (t ∷ ts', hit)

  pub update_row-hits :
      (guard : A → Bool) (set : A → A) (k : ℕ) (ts : List A)
      → (update_row k guard set ts).1 ≡ hits guard (find_row k ts)
  unfolding find_row update_row
  update_row-hits guard set k [] = refl
  update_row-hits guard set k (t ∷ ts) = ground (arith, update_row-hits guard set k ts)

  module _ (guard : A → Bool) (set : A → A) (keeps : (t : A) → id_of (set t) ≡ id_of t) where
    pub find_row-update :
        (k : ℕ) (ts : List A)
        → find_row k (update_row k guard set ts).0 ≡ updated guard set (find_row k ts)
    unfolding find_row update_row
    find_row-update k [] = refl
    find_row-update k (t ∷ ts) = ground (arith, keeps t, find_row-update k ts)

    pub find_row-update_ne :
        (j k : ℕ) (ts : List A)
        → (j == k) ≡ false
        → find_row j (update_row k guard set ts).0 ≡ find_row j ts
    unfolding find_row update_row
    find_row-update_ne j k [] h = refl
    find_row-update_ne j k (t ∷ ts) h = ground (arith, keeps t, find_row-update_ne j k ts h)

    -- A test that the update keeps at the rows that it reaches.
    pub update_row-keeps :
        (P : A → Bool)
        → ((t : A) → P t ≡ true → guard t ≡ true → P (set t) ≡ true)
        → (j k : ℕ) (ts : List A) → hits P (find_row j ts) ≡ true
        → hits P (find_row j (update_row k guard set ts).0) ≡ true
    unfolding find_row update_row
    update_row-keeps P ok j k [] h = h
    update_row-keeps P ok j k (t ∷ ts) h =
        ground (arith, keeps t, ok t, update_row-keeps P ok j k ts)

  pub update_row_miss :
      (guard : A → Bool) (set : A → A) (k : ℕ) (ts : List A)
      → (update_row k guard set ts).1 ≡ false
      → (update_row k guard set ts).0 ≡ ts
  unfolding update_row
  update_row_miss guard set k [] h = refl
  update_row_miss guard set k (t ∷ ts) h = elim (Bool-cases (id_of t == k)) [
    | inl here ↦ elim (Bool-cases (guard t)) [
      | inl pass ↦ let h' : true ≡ false = rw (here, pass) at h in absurd (cc)
      | inr stop ↦ rw (here, stop) refl
    ]
    | inr there ↦ let h' = rw there at h in rw (there, update_row_miss guard set k ts h') refl
  ]

  pub find_row-id : (k : ℕ) (ts : List A) (t : A) → find_row k ts ≡ some t → id_of t ≡ k
  unfolding find_row
  find_row-id k [] t h = absurd (cc)
  find_row-id k (u ∷ ts) t h = elim (Bool-cases (id_of u == k)) [
    | inl here ↦
        let h' : some u ≡ some t = rw here at h in
        let same_row : u ≡ t = cc in rw (← same_row) ((==_iff (id_of u) k).0 here)
    | inr there ↦ find_row-id k ts t (rw there at h)
  ]
