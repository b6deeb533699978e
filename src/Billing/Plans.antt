-- ===== src/Billing/Plans.antt =====
-- The queries on plans and users that billing makes: internal/database/plan_repo.go, user_repo.go.
use fxtun_dev.Base.{
  ℕ, Bool, true, false, not, ◌&&◌, ◌||◌, Option, none, some, List, [], ◌∷◌, ltb, if◌then◌else◌,
  is_some, nat_eq, ◌==◌, take,
}
use fxtun_dev.Base.Int.{ℤ, pos, negsuc}
use fxtun_dev.Base.Bytes.{bytes_eq}
use fxtun_dev.Base.Dict.{Dict, lookup, insert}
use fxtun_dev.Billing.{
  Plan, User, Db, Outside, select_slug, select_plans, select_plan, select_user, update_user,
}

unfoldable pub get_by_id : Outside → ℕ → Db → Option Plan
get_by_id o id db = if o.succeeds (select_plan id) then lookup id db.plans else none

find_slug : List ℕ → Dict ℕ Plan → Option ℕ
find_slug slug [] = none
find_slug slug ((i, p) ∷ m) = if p.slug == slug then some i else find_slug slug m

unfoldable pub get_by_slug : Outside → List ℕ → Db → Option ℕ
unfolding find_slug
get_by_slug o slug db = if o.succeeds select_slug then find_slug slug db.plans else none

abbrev ltb_ℤ : ℤ → ℤ → Bool
ltb_ℤ (pos a) (pos b) = ltb a b
ltb_ℤ (pos a) (negsuc b) = false
ltb_ℤ (negsuc a) (pos b) = true
ltb_ℤ (negsuc a) (negsuc b) = ltb b a

-- ORDER BY price ASC, id ASC.
before : ℕ × Plan → ℕ × Plan → Bool
before (i, p) (j, q) = ltb_ℤ p.price q.price || (not (ltb_ℤ q.price p.price) && ltb i j)

place : ℕ × Plan → List (ℕ × Plan) → List (ℕ × Plan)
place r [] = r ∷ []
place r (s ∷ rs) = if before s r then s ∷ place r rs else r ∷ s ∷ rs

order_by_price : List (ℕ × Plan) → List (ℕ × Plan)
unfolding place before
order_by_price [] = []
order_by_price (r ∷ rs) = place r (order_by_price rs)

-- `ListAll(limit, 0)`; the outer `none` is an error.
unfoldable pub list_all : Outside → ℕ → Db → Option (List (ℕ × Plan))
unfolding order_by_price place before
list_all o limit db =
    if o.succeeds select_plans then some (take limit (order_by_price db.plans)) else none

unfoldable pub get_user : Outside → ℕ → Db → Option User
get_user o id db = if o.succeeds (select_user id) then lookup id db.users else none

-- `Users.Update`: a row that is not there is an error.
unfoldable pub update_user_row : Outside → ℕ → User → Db → Option Db
update_user_row o id u db =
    if o.succeeds (update_user id) && is_some (lookup id db.users)
    then some (record db { users = insert id u db.users })
    else none
