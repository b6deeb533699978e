-- ===== src/Billing/Payments.antt =====
-- internal/database/payment_repo.go.
pub mod Invoices
pub mod Cleanup
use fxtun_dev.Base.{
  ℕ, ◌+◌, Bool, true, false, not, ◌&&◌, Option, none, some, List, [], ◌∷◌, ltb, if◌then◌else◌,
  is_some, nat_eq, ◌==◌,
}
use fxtun_dev.Base.Dict.{Dict, lookup, insert}
use fxtun_dev.Base.Sets.{contains}
use fxtun_dev.Base.Tables.{select}
use fxtun_dev.Billing.Subscriptions.{store}
use fxtun_dev.Billing.{
  Subscription, is_pending, Payment, is_unpaid, Db, Outside, select_unpaid, select_invoice,
  select_max_invoice, update_payment, insert_payment, delete_stale_subscriptions,
  delete_stale_payments,
}

-- `subscription_id = ?`, false for NULL.
abbrev pub refers : ℕ → Option ℕ → Bool
refers id none = false
refers id (some j) = j == id

-- The outer `none` is an error.
unfoldable pub get_pending_by_subscription_id : Outside → ℕ → Db → Option (Dict ℕ Payment)
get_pending_by_subscription_id o id db =
    if o.succeeds (select_unpaid id)
    then some (select (λ p. refers id p.subscription_id && is_unpaid p.status) db.payments)
    else none

unfoldable pub find_invoice : ℕ → Dict ℕ Payment → Option (ℕ × Payment)
find_invoice invoice [] = none
find_invoice invoice ((i, p) ∷ m) =
    if p.invoice_id == invoice then some (i, p) else find_invoice invoice m

unfoldable pub get_by_invoice_id : Outside → ℕ → Db → Option (ℕ × Payment)
unfolding find_invoice
get_by_invoice_id o invoice db =
    if o.succeeds (select_invoice invoice) then find_invoice invoice db.payments else none

abbrev pub max_of : ℕ → Option ℕ → ℕ
max_of n none = n
max_of n (some m) = if ltb n m then m else n

-- SELECT MAX(invoice_id): NULL for an empty table.
unfoldable pub max_invoice : Dict ℕ Payment → Option ℕ
max_invoice [] = none
max_invoice ((i, p) ∷ m) = some (max_of p.invoice_id (max_invoice m))

abbrev next_after : Option ℕ → ℕ
next_after none = 100001
next_after (some n) = n + 1

unfoldable pub get_next_invoice_id : Outside → Db → Option ℕ
get_next_invoice_id o db =
    if o.succeeds select_max_invoice then some (next_after (max_invoice db.payments)) else none

-- `Create`; the column invoice_id is UNIQUE.
unfoldable pub create : Outside → Payment → Db → Option (ℕ × Db)
unfolding find_invoice
create o p db =
    let id = db.next_payment in
    if o.succeeds (insert_payment p.invoice_id)
      && not (is_some (find_invoice p.invoice_id db.payments))
    then some (
      id,
      record db {
        payments = insert id (record p { created_at = o.now }) db.payments;
        next_payment = id + 1;
      },
    )
    else none

-- UPDATE … SET subscription_id, status, yookassa_data WHERE id.
unfoldable pub write_row : Payment → Option Payment → Option Payment
write_row p none = none
write_row p (some old) = some (record old {
  subscription_id = p.subscription_id;
  status = p.status;
  yookassa_data = p.yookassa_data;
})

unfoldable pub written : ℕ → Payment → Db → Db
written id p db = record db {
  payments = store id (write_row p (lookup id db.payments)) db.payments;
}

unfoldable pub update : Outside → ℕ → Payment → Db → Option Db
update o id p db = if o.succeeds (update_payment id p.status) then some (written id p db) else none

unfoldable pub is_stale : ℕ → Payment → Bool
is_stale cutoff p = is_unpaid p.status && ltb p.created_at cutoff

-- The subscriptions that the payments name.
unfoldable pub named : Dict ℕ Payment → List ℕ
named [] = []
named ((i, p) ∷ m) = elim (p.subscription_id) [ none ↦ named m | some s ↦ s ∷ named m ]

-- DELETE FROM subscriptions WHERE status = 'pending' AND id IN (…).
unfoldable pub drop_pending : List ℕ → Dict ℕ Subscription → Dict ℕ Subscription
drop_pending ids [] = []
drop_pending ids ((i, s) ∷ m) =
    if is_pending s.status && contains ids i
    then drop_pending ids m
    else (i, s) ∷ drop_pending ids m

abbrev unless_dropped : Bool → Option ℕ → Option ℕ
unless_dropped true r = none
unless_dropped false r = r

abbrev is_dropped : Dict ℕ Subscription → Dict ℕ Subscription → Option ℕ → Bool
is_dropped old new none = false
is_dropped old new (some id) = is_some (lookup id old) && not (is_some (lookup id new))

-- ON DELETE SET NULL, for the subscriptions that are in the old table and not in the new one.
unfoldable pub set_null :
    Dict ℕ Subscription → Dict ℕ Subscription → Dict ℕ Payment → Dict ℕ Payment
set_null old new [] = []
set_null old new ((i, p) ∷ m) =
    (
      i,
      record p {
        subscription_id = unless_dropped (is_dropped old new p.subscription_id) p.subscription_id;
      },
    )
    ∷ set_null old new m

-- `DeleteStalePending`, given the cutoff: the table after it, and the count or an error.
unfoldable pub delete_stale_pending : Outside → ℕ → Db → Db
unfolding drop_pending named set_null is_stale
delete_stale_pending o cutoff db =
    if not (o.succeeds delete_stale_subscriptions)
    then db
    else let kept = drop_pending (named (select (is_stale cutoff) db.payments)) db.subscriptions in
      let nulled = set_null db.subscriptions kept db.payments in
      if o.succeeds delete_stale_payments
      then record db {
        subscriptions = kept;
        payments = select (λ p. not (is_stale cutoff p)) nulled;
      }
      else record db { subscriptions = kept; payments = nulled }
