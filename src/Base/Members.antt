-- ===== src/Base/Members.antt =====
-- Membership, by a test and as a predicate, and lists without repetition.
use Prim.Native.Nat.{ℕ, zero, suc}
use ai_email_support_agent.Base.Lists.{drop}
use mathlib.Core.Path.{◌≡◌, refl}
use mathlib.Core.Bool.{Bool, false, ◌||◌}
use mathlib.Core.List.{List, [], ◌∷◌, ◌++◌}
use native.Mathlib.Omega.{arith}
use ai_email_support_agent.Base.Keys.{Eq, same, same→eq, same_refl}

module _ {ℓ κ} {A : Type ℓ} (P : A → Type κ) where
  abbrev pub All : List A → Type κ
  All [] = Unit
  All (x ∷ xs) = P x × All xs

  pub All-append : (xs ys : List A) → All xs → All ys → All (xs ++ ys)
  All-append [] ys hx hy = hy
  All-append (x ∷ xs) ys hx hy = (hx.0, All-append xs ys hx.1 hy)

module _ {ℓ} {A : Type ℓ} ⦃e : Eq A⦄ where
  -- `Set.has`, `Array.includes`
  abbrev pub has : List A → A → Bool
  has [] a = false
  has (x ∷ xs) a = same x a || has xs a

  -- No item occurs twice.
  abbrev pub Distinct : List A → Type 0
  Distinct [] = Unit
  Distinct (x ∷ xs) = (has xs x ≡ false) × Distinct xs

  pub has-append : (xs ys : List A) (a : A) → has (xs ++ ys) a ≡ (has xs a || has ys a)
  has-append [] ys a = refl
  has-append (x ∷ xs) ys a = ground (arith, has-append xs ys a)

  -- A new item at the end keeps the items distinct.
  pub Distinct-snoc :
      (xs : List A) (a : A) → Distinct xs → has xs a ≡ false → Distinct (xs ++ a ∷ [])
  Distinct-snoc [] a d h = (refl, tt)
  Distinct-snoc (x ∷ xs) a d h = (
    ground (arith, has-append xs (a ∷ []) x, same→eq a x, same_refl x),
    Distinct-snoc xs a d.1 (ground arith),
  )

  pub has-insert :
      (xs ys : List A) (a u : A) → has (xs ++ a ∷ ys) u ≡ (same a u || has (xs ++ ys) u)
  has-insert [] ys a u = refl
  has-insert (x ∷ xs) ys a u = ground (arith, has-insert xs ys a u)

  pub Distinct-insert :
      (xs ys : List A) (a : A)
      → Distinct (xs ++ ys)
      → has (xs ++ ys) a ≡ false
      → Distinct (xs ++ a ∷ ys)
  Distinct-insert [] ys a d h = (h, d)
  Distinct-insert (x ∷ xs) ys a d h = (
    ground (arith, has-insert xs ys a x, same→eq a x, same_refl x),
    Distinct-insert xs ys a d.1 (ground arith),
  )

  pub has-drop : (n : ℕ) (xs : List A) (a : A) → has xs a ≡ false → has (drop n xs) a ≡ false
  has-drop zero xs a h = h
  has-drop (suc n) [] a h = h
  has-drop (suc n) (x ∷ xs) a h = has-drop n xs a (ground arith)

  pub Distinct-drop : (n : ℕ) (xs : List A) → Distinct xs → Distinct (drop n xs)
  Distinct-drop zero xs d = d
  Distinct-drop (suc n) [] d = d
  Distinct-drop (suc n) (x ∷ xs) d = Distinct-drop n xs d.1

  pub Distinct-append_left : (xs ys : List A) → Distinct (xs ++ ys) → Distinct xs
  Distinct-append_left [] ys d = tt
  Distinct-append_left (x ∷ xs) ys d =
      (ground (arith, has-append xs ys x), Distinct-append_left xs ys d.1)
