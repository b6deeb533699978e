-- ===== src/Billing/Payments/Invoices.antt =====
-- The invoice ids of internal/database/payment_repo.go.
use fxtun_dev.Base.{
  ℕ, ◌+◌, ◌<◌, ◌≡◌, refl, inl, inr, true, none, some, [], ◌∷◌, arith, Option-cases, nat_eq,
}
use fxtun_dev.Base.Dict.{Dict, insert}
use fxtun_dev.Billing.{Payment, Db, Outside, insert_payment}
use fxtun_dev.Billing.Payments.{find_invoice, max_invoice, get_next_invoice_id, create}

empty_max : (m : Dict ℕ Payment) → max_invoice m ≡ none → m ≡ []
unfolding max_invoice
empty_max [] e = refl
empty_max (r ∷ m) e = cc e

max_bounds :
    (m : Dict ℕ Payment) (n : ℕ)
    → max_invoice m ≡ some n
    → (k : ℕ) → n < k
    → find_invoice k m ≡ none
unfolding max_invoice find_invoice
max_bounds [] n e k h = refl
max_bounds ((i, p) ∷ m) n e k h = elim (Option-cases (max_invoice m)) [
  | inl q ↦ ground (arith, empty_max m q)
  | inr (x, q) ↦ ground (arith, max_bounds m x q k)
]

unused :
    (o : Outside) (db : Db) (n : ℕ)
    → get_next_invoice_id o db ≡ some n
    → find_invoice n db.payments ≡ none
unfolding get_next_invoice_id find_invoice
unused o db n e = elim (Option-cases (max_invoice db.payments)) [
  | inl q ↦ let gone = empty_max db.payments q in rw gone
  | inr (x, q) ↦ max_bounds db.payments x q n (ground arith)
]

-- The next invoice id is not in use, so that the row of a new payment is inserted wherever the statements
-- succeed: the UNIQUE column never refuses it.
pub create-get_next_invoice_id :
    (o : Outside) (db : Db) (p : Payment) (n : ℕ)
    → get_next_invoice_id o db ≡ some n
    → p.invoice_id ≡ n
    → o.succeeds (insert_payment n) ≡ true
    → (find_invoice n db.payments ≡ none)
      × (create o p db
          ≡ some (
            db.next_payment,
            record db {
              payments = insert db.next_payment (record p { created_at = o.now }) db.payments;
              next_payment = db.next_payment + 1;
            },
          ))
unfolding get_next_invoice_id create
create-get_next_invoice_id o db p n e h k =
    let fresh = unused o db n e in (fresh, ground (arith, fresh))
