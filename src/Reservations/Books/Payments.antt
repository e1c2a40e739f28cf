-- ===== src/Reservations/Books/Payments.antt =====
-- An update of one reservation's payment, by the payment's id and the state that was read.
use sports_erp.Prelude.{
  ℕ, ◌≡◌, refl, ap, inl, inr, Option, none, some, List, Bool, true, false, ◌==◌, ◌&&◌, arith,
  update, All, All-find, All-update, Distinct, Distinct-update, Distinct-find, find-passes,
  find-update, Option-cases, if◌then◌else◌, Bool-cases, ◌∙◌,
}
use sports_erp.Store.Members.{Payment, PaymentStatus}
use sports_erp.Reservations.{payment_of, is_pending, is_approved, fail_payment, refund_payment}
use sports_erp.Reservations.Books.{IsSplit}

abbrev pub paid_row : ℕ → (PaymentStatus → Bool) → Payment → Bool
paid_row id from q = q.id == id && from q.status

module _ (ps : List Payment) (id : ℕ) (p : Payment) (from : PaymentStatus → Bool)
    (f : Payment → Payment) (distinct : Distinct (λ q. q.id) ps) (found : payment_of id ps ≡ some p)
    (ready : from p.status ≡ true)
    (same_reservation : (q : Payment) → (f q).reservation_id ≡ q.reservation_id) where
  -- It changes the payment of that reservation, and no other.
  pub payment_of-update :
      (k : ℕ)
      → payment_of k (update (paid_row p.id from) f ps)
        ≡ (if k == id then some (f p) else payment_of k ps)
  payment_of-update k =
      let step =
        find-update (λ q. q.reservation_id == k) (paid_row p.id from) f ps
          (λ q. ap (λ n. n == k) (same_reservation q)) in
      elim (Option-cases (payment_of k ps)) [
        | inl e ↦ ground (arith, step, e, found)
        | inr (q, e) ↦ ground (
          arith,
          step,
          e,
          find-passes (λ q. q.reservation_id == k) ps q e,
          find-passes (λ q. q.reservation_id == id) ps p found,
          All-find (λ y. y.id ≡ p.id → y ≡ p) (λ q. q.reservation_id == k) ps q
              (Distinct-find (λ y. y.id) (λ q. q.reservation_id == id) ps p distinct found) e,
        )
      ]

-- The payments after a cancellation, given the payment of the reservation.
abbrev pub settled : ℕ → Bool → Option Payment → List Payment → List Payment
settled now due none ps = ps
settled now due (some p) ps =
    if is_pending p.status
    then update (paid_row p.id is_pending) fail_payment ps
    else if is_approved p.status && due
    then update (paid_row p.id is_approved) (refund_payment now) ps
    else ps

-- What a cancellation makes of the payment of the reservation.
abbrev pub settled_row : ℕ → Bool → Option Payment → Option Payment
settled_row now due none = none
settled_row now due (some p) = some (
    if is_pending p.status
    then fail_payment p
    else if is_approved p.status && due
    then refund_payment now p
    else p)

module _ (now : ℕ) (due : Bool) (ps : List Payment) where
  settled_cases {κ} :
      (Q : List Payment → Type κ) (p : Payment)
      → (is_pending p.status ≡ true → Q (update (paid_row p.id is_pending) fail_payment ps))
      → (is_pending p.status ≡ false
          → is_approved p.status && due ≡ true
          → Q (update (paid_row p.id is_approved) (refund_payment now) ps))
      → (is_pending p.status ≡ false → is_approved p.status && due ≡ false → Q ps)
      → Q (settled now due (some p) ps)
  settled_cases Q p fails refunds stays = elim (Bool-cases (is_pending p.status)) [
    | inl e ↦ rw e (fails e)
    | inr e ↦ rw e (elim (Bool-cases (is_approved p.status && due)) [
      | inl e' ↦ rw e' (refunds e e')
      | inr e' ↦ rw e' (stays e e')
    ])
  ]

  pub settled-Distinct :
      (o : Option Payment)
      → Distinct (λ (q : Payment). q.id) ps
      → Distinct (λ (q : Payment). q.id) (settled now due o ps)
  settled-Distinct none d = d
  settled-Distinct (some p) d =
      settled_cases (Distinct (λ q. q.id)) p
        (λ _. Distinct-update (λ q. q.id) (paid_row p.id is_pending) fail_payment ps (λ q. refl) d)
        (λ _ _.
          Distinct-update (λ q. q.id) (paid_row p.id is_approved) (refund_payment now) ps
            (λ q. refl) d)
        (λ _ _. d)

  pub settled-IsSplit : (o : Option Payment) → All IsSplit ps → All IsSplit (settled now due o ps)
  settled-IsSplit none a = a
  settled-IsSplit (some p) a =
      settled_cases (All IsSplit) p
        (λ _.
          All-update IsSplit IsSplit (paid_row p.id is_pending) fail_payment ps (λ q t h. h)
            (λ q t h. h) a)
        (λ _ _.
          All-update IsSplit IsSplit (paid_row p.id is_approved) (refund_payment now) ps
            (λ q t h. h) (λ q t h. h) a)
        (λ _ _. a)

  pub payment_of-settled :
      (id : ℕ)
      → Distinct (λ (q : Payment). q.id) ps
      → (k : ℕ)
      → payment_of k (settled now due (payment_of id ps) ps)
        ≡ (if k == id then settled_row now due (payment_of id ps) else payment_of k ps)
  payment_of-settled id d k = elim (Option-cases (payment_of id ps)) [
    | inl e ↦ rw e (ground (arith, e))
    | inr (p, e) ↦ rw e (
        settled_cases
          (λ qs.
            payment_of k qs ≡ (if k == id then settled_row now due (some p) else payment_of k ps))
          p
          (λ t.
            payment_of-update ps id p is_pending fail_payment d e t (λ q. refl) k
            ∙ ground (arith, t))
          (λ t t'.
            payment_of-update ps id p is_approved (refund_payment now) d e (ground arith)
              (λ q. refl) k
            ∙ ground (arith, t, t'))
          (λ t t'. ground (arith, t, t', e)))
  ]
