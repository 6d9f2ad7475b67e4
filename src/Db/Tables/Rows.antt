-- ===== src/Db/Tables/Rows.antt =====
-- Reading a ticket back after an update of a row.
use ai_email_support_agent.Base.{
  ℕ, Bool, false, some, List, [], ◌∷◌, ◌==◌, if◌then◌else◌, ◌≡◌, refl, arith, Bool-cases, inl, inr,
  All, updated, hits,
}
use ai_email_support_agent.Db.Tables.{Ticket, find_ticket, update_ticket, always}

module _ (guard : Ticket → Bool) (set : Ticket → Ticket)
    (keeps : (t : Ticket) → (set t).id ≡ t.id) where
  pub find_ticket-update :
      (k : ℕ) (ts : List Ticket)
      → find_ticket k (update_ticket k guard set ts).0 ≡ updated guard set (find_ticket k ts)
  unfolding find_ticket update_ticket
  find_ticket-update k [] = refl
  find_ticket-update k (t ∷ ts) = ground (arith, keeps t, find_ticket-update k ts)

  pub find_ticket-update_ne :
      (j k : ℕ) (ts : List Ticket)
      → (j == k) ≡ false
      → find_ticket j (update_ticket k guard set ts).0 ≡ find_ticket j ts
  unfolding find_ticket update_ticket
  find_ticket-update_ne j k [] h = refl
  find_ticket-update_ne j k (t ∷ ts) h = ground (arith, keeps t, find_ticket-update_ne j k ts h)

pub update_ticket-hits :
    (guard : Ticket → Bool) (set : Ticket → Ticket) (k : ℕ) (ts : List Ticket)
    → (update_ticket k guard set ts).1 ≡ hits guard (find_ticket k ts)
unfolding find_ticket update_ticket
update_ticket-hits guard set k [] = refl
update_ticket-hits guard set k (t ∷ ts) = ground (arith, update_ticket-hits guard set k ts)

module _ (f : Ticket → Ticket) (keeps : (t : Ticket) → (f t).id ≡ t.id) where
  -- Two updates of one row are one.
  pub update_ticket-update :
      (guard : Ticket → Bool) (g : Ticket → Ticket) (k : ℕ) (ts : List Ticket)
      → (update_ticket k guard g (update_ticket k always f ts).0).0
        ≡ (update_ticket k always (λ t. if guard (f t) then g (f t) else f t) ts).0
  unfolding update_ticket
  update_ticket-update guard g k [] = refl
  update_ticket-update guard g k (t ∷ ts) =
      ground (arith, keeps t, update_ticket-update guard g k ts)

-- A property of all the rows survives an update that keeps it at the row that is found.
module _ (P : Ticket → Type 0) (guard : Ticket → Bool) (f : Ticket → Ticket) where
  pub All-update_ticket :
      (k : ℕ) (ts : List Ticket)
      → ((t : Ticket) → find_ticket k ts ≡ some t → P t → P (f t))
      → All P ts
      → All P (update_ticket k guard f ts).0
  unfolding find_ticket update_ticket
  All-update_ticket k [] h a = tt
  All-update_ticket k (t ∷ ts) h a = elim (Bool-cases (t.id == k)) [
    | inl here ↦ elim (Bool-cases (guard t)) [
      | inl pass ↦ rw (here, pass) (h t (rw here refl) a.0, a.1)
      | inr stop ↦ rw (here, stop) a
    ]
    | inr there ↦ rw there (a.0, All-update_ticket k ts (λ u e p. h u (rw there e) p) a.1)
  ]

-- Updating a row to what it was gives the rows back.
pub update_ticket_id :
    (f : Ticket → Ticket) (k : ℕ) (t : Ticket) (ts : List Ticket)
    → find_ticket k ts ≡ some t
    → f t ≡ t
    → (update_ticket k always f ts).0 ≡ ts
unfolding find_ticket update_ticket
update_ticket_id f k t [] h e = refl
update_ticket_id f k t (u ∷ ts) h e = elim (Bool-cases (u.id == k)) [
  | inl here ↦
      let h' : some u ≡ some t = rw here at h in
      let same_row : u ≡ t = cc in rw (here, same_row, e) refl
  | inr there ↦ let h' = rw there at h in rw (there, update_ticket_id f k t ts h' e) refl
]

pub update_ticket_miss :
    (guard : Ticket → Bool) (set : Ticket → Ticket) (k : ℕ) (ts : List Ticket)
    → hits guard (find_ticket k ts) ≡ false
    → (update_ticket k guard set ts).0 ≡ ts
unfolding find_ticket update_ticket
update_ticket_miss guard set k [] h = refl
update_ticket_miss guard set k (t ∷ ts) h = elim (Bool-cases (t.id == k)) [
  | inl here ↦ let h' : guard t ≡ false = rw here at h in rw (here, h') refl
  | inr there ↦ let h' = rw there at h in rw (there, update_ticket_miss guard set k ts h') refl
]
