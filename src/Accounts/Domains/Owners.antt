-- ===== src/Accounts/Domains/Owners.antt =====
-- Who can release a subdomain.
use fxtun_dev.Base.{
  ℕ, ◌<◌, ◌≡◌, refl, sym, ap, ◌∙◌, ◌⊎◌, inl, inr, true, false, none, some, arith, Bool-cases,
  nat_eq, ◌==◌,
}
use fxtun_dev.Base.Bytes.{bytes_eq}
use fxtun_dev.Base.Int.{pos, negsuc}
use fxtun_dev.Base.Dict.{lookup, lookup-insert, lookup-delete}
use fxtun_dev.Accounts.Domains.{
  ReservedDomain, Store, Caller, create_domain, delete_domain, handle_reserve_domain,
  handle_release_domain, not_owner,
}
use fxtun_dev.Accounts.Domains.Laws.{Inv, reserve_cases, release_cases, Op, reserve, release, step}

-- Who may release the row d under the id i in this request.
abbrev pub Entitled : ℕ → ReservedDomain → Op → Type 0
Entitled i d (reserve o u request) = ⊥
Entitled i d (release o u request) =
    (c : Caller) × (u ≡ some c)
    × (request ≡ some (pos i))
    × ((c.id ≡ d.user_id) ⊎ (c.is_admin ≡ true))

moved :
    (i : ℕ) (d : ReservedDomain) (s t : Store)
    → s ≡ t
    → lookup i t.rows ≡ some d
    → lookup i s.rows ≡ some d
moved i d s t e l = ap (λ x. lookup i x.rows) e ∙ l

kept_by_create :
    (new : ReservedDomain) (st : Store) (i : ℕ) (d : ReservedDomain)
    → Inv st
    → lookup i st.rows ≡ some d
    → lookup i (create_domain st.next_id new st).rows ≡ some d
unfolding create_domain
kept_by_create new st i d inv l =
    let low : i < st.next_id = inv.1 i d l in
    ground (arith, lookup-insert st.next_id i new st.rows, nat_eq.beq_iff st.next_id i)

kept_by_remove :
    (j : ℕ) (st : Store) (i : ℕ) (d : ReservedDomain)
    → (j == i) ≡ false
    → lookup i st.rows ≡ some d
    → lookup i (delete_domain j st).rows ≡ some d
unfolding delete_domain
kept_by_remove j st i d other l = ground (arith, lookup-delete j i st.rows)

entitled :
    (u : Caller) (d : ReservedDomain)
    → not_owner u d ≡ false
    → (u.id ≡ d.user_id) ⊎ (u.is_admin ≡ true)
entitled u d own = ground (arith, nat_eq.beq_iff d.user_id u.id)

-- No request to reserve or to release changes a reserved subdomain, but a request to release it of its owner
-- or of an administrator. (A merge or a deletion of accounts is no such request.)
pub step-lookup :
    (op : Op) (st : Store) (i : ℕ) (d : ReservedDomain)
    → Inv st
    → lookup i st.rows ≡ some d
    → (lookup i (step st op).rows ≡ some d) ⊎ Entitled i d op
unfolding step handle_reserve_domain handle_release_domain
step-lookup (reserve o none request) st i d inv l = inl l
step-lookup (reserve o (some u) none) st i d inv l = inl l
step-lookup (reserve o (some u) (some name)) st i d inv l = elim (reserve_cases o u name st) [
  | inl (e, valid, below, free) ↦
      inl (moved i d _ _ (ap (λ x. x.0) e) (kept_by_create _ st i d inv l))
  | inr e ↦ inl (moved i d _ _ e l)
]
step-lookup (release o none request) st i d inv l = inl l
step-lookup (release o (some u) none) st i d inv l = inl l
step-lookup (release o (some u) (some (negsuc k))) st i d inv l = inl l
step-lookup (release o (some u) (some (pos j))) st i d inv l = elim (release_cases o u j st) [
  | inl (d', l', own, e) ↦ elim (Bool-cases (j == i)) [
    | inl same ↦
        let ej : j ≡ i = (nat_eq.beq_iff j i).0 same in
        let ed : d' ≡ d = ground arith in
        inr (u, refl, ap (λ x. some (pos x)) ej, rw (sym ed) (entitled u d' own))
    | inr other ↦ inl (moved i d _ _ (ap (λ x. x.0) e) (kept_by_remove j st i d other l))
  ]
  | inr e ↦ inl (moved i d _ _ e l)
]
