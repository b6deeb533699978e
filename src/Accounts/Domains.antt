-- ===== src/Accounts/Domains.antt =====
-- The reserved domains: the handlers of internal/api/handlers_domains.go over the statements of
-- internal/database/domain_repo.go.
mod Laws
mod Owners
mod Limit
mod Tests
use fxtun_dev.Base.{
  ℕ, suc, Bool, false, not, ◌&&◌, Option, none, some, leb, if◌then◌else◌, nat_eq, ◌==◌, length,
}
use fxtun_dev.Base.Bytes.{Bytes, bytes_eq}
use fxtun_dev.Base.Int.{ℤ, pos, negsuc}
use fxtun_dev.Base.Dict.{Dict, lookup, insert, delete}
use fxtun_dev.Base.Tables.{select}
use fxtun_dev.Accounts.Subdomains.{valid_subdomain}

-- The id is the key of the row.
pub record ReservedDomain : Type 0 where
  user_id : ℕ
  subdomain : Bytes
  created_at : ℕ

-- The table, with the next id of AUTOINCREMENT.
pub record Store : Type 0 where
  rows : Dict ℕ ReservedDomain
  next_id : ℕ

-- The user of a request, with the `MaxDomains` of a plan.
pub record Caller : Type 0 where
  id : ℕ
  is_admin : Bool
  plan_max_domains : Option ℤ

-- The clock, and which statements fail.
pub record Outside : Type 0 where
  now : ℕ
  read_fails : Bool
  write_fails : Bool

pub data Answer : Type 0 where
  unauthorized : Answer
  invalid_request : Answer
  invalid_subdomain : Answer
  failed : Answer
  max_domains_reached : Answer
  subdomain_taken : Answer
  reserved : ℕ → Answer
  domain_not_found : Answer
  access_denied : Answer
  released : Answer
  check : Bool → Answer

unfoldable pub count : ℕ → Store → ℕ
count user st = length (select (λ d. d.user_id == user) st.rows)

unfoldable pub is_available : Bytes → Store → Bool
is_available name st = length (select (λ d. d.subdomain == name) st.rows) == 0

unfoldable pub create_domain : ℕ → ReservedDomain → Store → Store
create_domain i d st = record { rows = insert i d st.rows; next_id = suc i }

unfoldable pub delete_domain : ℕ → Store → Store
delete_domain i st = record st { rows = delete i st.rows }

-- `maxDomains`, -1 for no limit.
abbrev pub max_domains : Option ℤ → ℤ
max_domains none = pos 1
max_domains (some (negsuc n)) = negsuc 0
max_domains (some (pos n)) = pos n

abbrev pub at_limit : ℕ → ℤ → Bool
at_limit n (negsuc k) = false
at_limit n (pos k) = leb k n

-- handleReserveDomain; the request is `none` where decodeAndValidate has answered it.
unfoldable pub handle_reserve_domain :
    Outside → Option Caller → Option Bytes → Store → Store × Answer
handle_reserve_domain o none request st = (st, unauthorized)
handle_reserve_domain o (some u) none st = (st, invalid_request)
handle_reserve_domain o (some u) (some name) st =
    if not (valid_subdomain name)
    then (st, invalid_subdomain)
    else if o.read_fails
    then (st, failed)
    else if at_limit (count u.id st) (max_domains u.plan_max_domains)
    then (st, max_domains_reached)
    else if o.write_fails
    then (st, failed)
    else if not (is_available name st)
    then (st, subdomain_taken)
    else (
      create_domain st.next_id (record { user_id = u.id; subdomain = name; created_at = o.now }) st,
      reserved st.next_id,
    )

abbrev pub not_owner : Caller → ReservedDomain → Bool
not_owner u d = not (d.user_id == u.id) && not u.is_admin

-- handleReleaseDomain; the id is `none` where ParseInt fails.
unfoldable pub handle_release_domain : Outside → Option Caller → Option ℤ → Store → Store × Answer
handle_release_domain o none request st = (st, unauthorized)
handle_release_domain o (some u) none st = (st, invalid_request)
handle_release_domain o (some u) (some (negsuc k)) st =
    (st, if o.read_fails then failed else domain_not_found)
handle_release_domain o (some u) (some (pos i)) st =
    if o.read_fails then (st, failed) else elim (lookup i st.rows) [
      | none ↦ (st, domain_not_found)
      | some d ↦
          if not_owner u d
          then (st, access_denied)
          else if o.write_fails
          then (st, failed)
          else (delete_domain i st, released)
    ]

-- handleCheckDomain.
unfoldable pub handle_check_domain : Outside → Bytes → Store → Answer
handle_check_domain o name st =
    if not (valid_subdomain name)
    then check false
    else if o.read_fails
    then failed
    else check (is_available name st)
