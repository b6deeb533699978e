-- ===== src/Accounts/Domains/Limit.antt =====
-- The limit of a plan on the reserved domains of its user.
use fxtun_dev.Base.{
  ℕ, suc, ◌≤◌, ◌≡◌, inl, inr, Bool, true, false, none, some, [], ◌∷◌, arith, nat_eq, ◌==◌, length,
}
use fxtun_dev.Base.Bytes.{Bytes, bytes_eq}
use fxtun_dev.Base.Int.{ℤ, pos, negsuc}
use fxtun_dev.Base.Dict.{Dict, lookup, insert}
use fxtun_dev.Base.Tables.{select}
use fxtun_dev.Accounts.Domains.{
  ReservedDomain, Store, Caller, Outside, create_domain, handle_reserve_domain, count, max_domains,
  at_limit, reserved, check, handle_check_domain,
}
use fxtun_dev.Accounts.Domains.Laws.{Inv, reserve_cases, fresh_id}

-- A number of domains that a limit lets be.
abbrev pub Within : ℤ → ℕ → Type 0
Within (negsuc k) n = Unit
Within (pos k) n = n ≤ k

length-select-insert :
    (p : ReservedDomain → Bool) (k : ℕ) (d : ReservedDomain) (m : Dict ℕ ReservedDomain)
    → lookup k m ≡ none
    → length (select p (insert k d m)) ≤ suc (length (select p m))
unfolding select lookup insert
length-select-insert p k d [] e = ground arith
length-select-insert p k d ((j, v) ∷ m) e = ground (arith, length-select-insert p k d m)

grown : (k : ℤ) (n after : ℕ) → at_limit n k ≡ false → after ≤ suc n → Within k after
grown (negsuc k) n after e g = tt
grown (pos k) n after e g = ground arith

-- A request leaves the user with no more domains than the plan allows, if there were no more before.
pub handle_reserve_domain-Within :
    (o : Outside) (u : Caller) (name : Bytes) (st : Store)
    → Inv st
    → Within (max_domains u.plan_max_domains) (count u.id st)
    → Within
        (max_domains u.plan_max_domains)
        (count u.id (handle_reserve_domain o (some u) (some name) st).0)
unfolding count create_domain
handle_reserve_domain-Within o u name st inv w = elim (reserve_cases o u name st) [
  | inl (e, valid, below, free) ↦ rw e (
      grown (max_domains u.plan_max_domains) (count u.id st) _ below
        (length-select-insert (λ d. d.user_id == u.id) st.next_id _ st.rows (fresh_id st inv.1)))
  | inr e ↦ rw e w
]

-- A subdomain that a check has found free is reserved by the next request for it, of a user below the
-- limit, if the insertion works.
pub check-reserve :
    (o : Outside) (u : Caller) (name : Bytes) (st : Store)
    → handle_check_domain o name st ≡ check true
    → at_limit (count u.id st) (max_domains u.plan_max_domains) ≡ false
    → o.write_fails ≡ false
    → (handle_reserve_domain o (some u) (some name) st).1 ≡ reserved st.next_id
unfolding handle_check_domain handle_reserve_domain
check-reserve o u name st c below w = ground arith
