-- ===== src/Billing/Subscriptions.antt =====
-- internal/database/subscription_repo.go: each query is a filter of the table, and a comparison with
-- NULL is false.
pub mod Laws
use fxtun_dev.Base.{
  ℕ, ◌+◌, Bool, false, ◌&&◌, Option, none, some, List, [], ◌∷◌, ltb, leb, if◌then◌else◌, is_some,
  nat_eq, ◌==◌,
}
use fxtun_dev.Base.Dict.{Dict, lookup, insert}
use fxtun_dev.Base.Tables.{select}
use fxtun_dev.Billing.{
  Subscription, is_active, is_current, Db, Outside, select_subscription, select_current,
  update_subscription, insert_subscription,
}

abbrev pub ends_before : ℕ → Option ℕ → Bool
ends_before t none = false
ends_before t (some e) = ltb e t

abbrev pub ends_by : ℕ → Option ℕ → Bool
ends_by t none = false
ends_by t (some e) = leb e t

abbrev pub ends_within : ℕ → ℕ → Option ℕ → Bool
ends_within start end none = false
ends_within start end (some e) = leb start e && ltb e end

unfoldable pub is_due : ℕ → Subscription → Bool
is_due now s = is_active s.status && ends_before now s.current_period_end

unfoldable pub get_expired : ℕ → Db → Dict ℕ Subscription
get_expired now db = select (is_due now) db.subscriptions

unfoldable pub is_expiring : ℕ → Subscription → Bool
is_expiring threshold s =
    is_active s.status && s.recurring && ends_by threshold s.current_period_end

-- The caller gives the end of the interval, `time.Now().Add(within)`.
unfoldable pub get_expiring : ℕ → Db → Dict ℕ Subscription
get_expiring threshold db = select (is_expiring threshold) db.subscriptions

unfoldable pub has_plan_change : ℕ → Subscription → Bool
has_plan_change now s = is_some s.next_plan_id && ends_before now s.current_period_end

unfoldable pub get_with_pending_plan_change : ℕ → Db → Dict ℕ Subscription
get_with_pending_plan_change now db = select (has_plan_change now) db.subscriptions

unfoldable pub get_for_renewal_reminder : Outside → ℕ → Db → Dict ℕ Subscription
get_for_renewal_reminder o days db =
    let start = o.add_days days o.now in
    select
      (λ s.
        is_active s.status
        && s.recurring
        && ends_within start (o.add_days 1 start) s.current_period_end)
      db.subscriptions

unfoldable pub get_by_id : Outside → ℕ → Db → Option Subscription
get_by_id o id db = if o.succeeds (select_subscription id) then lookup id db.subscriptions else none

abbrev later : ℕ × Subscription → Option (ℕ × Subscription) → Option (ℕ × Subscription)
later r none = some r
later (i, s) (some (j, t)) = if ltb s.created_at t.created_at then some (j, t) else some (i, s)

-- ORDER BY created_at DESC LIMIT 1; of two rows of one time the first.
unfoldable pub latest : List (ℕ × Subscription) → Option (ℕ × Subscription)
latest [] = none
latest (r ∷ rs) = later r (latest rs)

-- The outer `none` is an error.
unfoldable pub get_by_user_id : Outside → ℕ → Db → Option (Option (ℕ × Subscription))
unfolding latest
get_by_user_id o user db =
    if o.succeeds (select_current user)
    then some (latest (select (λ s. s.user_id == user && is_current s.status) db.subscriptions))
    else none

-- UPDATE … WHERE id: the user and the time of creation stay, and a missing row changes nothing.
unfoldable pub write_row : ℕ → Subscription → Option Subscription → Option Subscription
write_row now s none = none
write_row now s (some old) =
    some (record s { user_id = old.user_id; created_at = old.created_at; updated_at = now })

abbrev pub store {ℓ} : {A : Type ℓ} → ℕ → Option A → Dict ℕ A → Dict ℕ A
store id none m = m
store id (some row) m = insert id row m

unfoldable pub rewritten : ℕ → ℕ → Subscription → Dict ℕ Subscription → Dict ℕ Subscription
rewritten now id s m = store id (write_row now s (lookup id m)) m

unfoldable pub written : ℕ → ℕ → Subscription → Db → Db
written now id s db = record db { subscriptions = rewritten now id s db.subscriptions }

unfoldable pub update : Outside → ℕ → Subscription → Db → Option Db
update o id s db =
    if o.succeeds (update_subscription id) then some (written o.now id s db) else none

-- `Create`: the new id and the table with the row.
unfoldable pub create : Outside → Subscription → Db → Option (ℕ × Db)
create o s db =
    let id = db.next_subscription in
    if o.succeeds (insert_subscription id)
    then some (
      id,
      record db {
        subscriptions =
            insert id (record s { created_at = o.now; updated_at = o.now }) db.subscriptions;
        next_subscription = id + 1;
      },
    )
    else none
