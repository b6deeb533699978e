-- ===== src/Accounts/Domains/Laws.antt =====
-- What every history of reservations and releases keeps.
use fxtun_dev.Base.{
  ℕ, ◌<◌, ◌≡◌, sym, ap, ◌∙◌, ◌≢◌, ◌⊎◌, inl, inr, Bool, true, false, ◌||◌, Option, none, some, List,
  [], ◌∷◌, arith, Bool-cases, Option-cases, nat_eq, ◌==◌, length,
}
use fxtun_dev.Base.Bytes.{Bytes, bytes_eq}
use fxtun_dev.Base.Int.{ℤ, pos, negsuc}
use fxtun_dev.Base.Dict.{
  Dict, lookup, insert, delete, Unique, lookup-insert, lookup-delete, insert-Unique, delete-Unique,
}
use fxtun_dev.Base.Tables.{select}
use fxtun_dev.Accounts.Subdomains.{valid_subdomain}
use fxtun_dev.Accounts.Domains.{
  ReservedDomain, Store, Caller, Outside, reserved, released, is_available, create_domain,
  delete_domain, handle_reserve_domain, handle_release_domain, not_owner, count, max_domains,
  at_limit,
}

-- Ids are below the next one, no subdomain is reserved twice, and each is valid.
abbrev pub Inv : Store → Type 0
Inv st =
    Unique st.rows
    × ((i : ℕ) (d : ReservedDomain) → lookup i st.rows ≡ some d → i < st.next_id)
    × ((i j : ℕ) (d d' : ReservedDomain)
        → lookup i st.rows ≡ some d
        → lookup j st.rows ≡ some d'
        → d.subdomain ≡ d'.subdomain
        → i ≡ j)
    × ((i : ℕ) (d : ReservedDomain)
        → lookup i st.rows ≡ some d
        → valid_subdomain d.subdomain ≡ true)

-- A row of a table is in no empty selection.
select_none :
    (p : ReservedDomain → Bool) (m : Dict ℕ ReservedDomain) (i : ℕ) (d : ReservedDomain)
    → length (select p m) ≡ 0
    → lookup i m ≡ some d
    → p d ≡ false
unfolding select lookup
select_none p [] i d n l = cc
select_none p ((j, v) ∷ m) i d n l = ground (arith, select_none p m i d)

-- A subdomain that is available is in no row.
available_lem :
    (name : Bytes) (st : Store) (i : ℕ) (d : ReservedDomain)
    → is_available name st ≡ true
    → lookup i st.rows ≡ some d
    → d.subdomain ≢ name
unfolding is_available
available_lem name st i d h l e =
    let n : length (select (λ r. r.subdomain == name) st.rows) ≡ 0 = ground arith in
    let f : (d.subdomain == name) ≡ false =
      select_none (λ r. r.subdomain == name) st.rows i d n l in
    let t : (d.subdomain == name) ≡ true = (bytes_eq.beq_iff d.subdomain name).1 e in cc

pub fresh_id :
    (st : Store)
    → ((i : ℕ) (d : ReservedDomain) → lookup i st.rows ≡ some d → i < st.next_id)
    → lookup st.next_id st.rows ≡ none
fresh_id st below = elim (Option-cases (lookup st.next_id st.rows)) [
  | inl e ↦ e
  | inr (d, e) ↦ let low : st.next_id < st.next_id = below st.next_id d e in absurd (omega arith)
]

-- A row after an insertion is the new one or an old one.
created :
    (k i : ℕ) (d d' : ReservedDomain) (m : Dict ℕ ReservedDomain)
    → lookup i (insert k d m) ≡ some d'
    → ((i ≡ k) × (d' ≡ d)) ⊎ (lookup i m ≡ some d')
created k i d d' m l = ground (arith, lookup-insert k i d m, nat_eq.beq_iff k i)

create_domain-Inv :
    (d : ReservedDomain) (st : Store)
    → Inv st
    → is_available d.subdomain st ≡ true
    → valid_subdomain d.subdomain ≡ true
    → Inv (create_domain st.next_id d st)
unfolding create_domain
create_domain-Inv d st (u, below, distinct, valid) free ok = (
  insert-Unique st.next_id d st.rows u,
  (λ i d' l.
      ground
        (arith, lookup-insert st.next_id i d st.rows, below i d', nat_eq.beq_iff st.next_id i)),
  (λ i j d1 d2 l1 l2 e.
      two i j d1 d2 e (created st.next_id i d d1 st.rows l1)
        (created st.next_id j d d2 st.rows l2)),
  (λ i d' l.
      ground
        (arith, lookup-insert st.next_id i d st.rows, valid i d', nat_eq.beq_iff st.next_id i)),
)
  where
    two :
        (i j : ℕ) (d1 d2 : ReservedDomain)
        → d1.subdomain ≡ d2.subdomain
        → ((i ≡ st.next_id) × (d1 ≡ d)) ⊎ (lookup i st.rows ≡ some d1)
        → ((j ≡ st.next_id) × (d2 ≡ d)) ⊎ (lookup j st.rows ≡ some d2)
        → i ≡ j
    two i j d1 d2 e (inl (a, b)) (inl (a', b')) = a ∙ sym a'
    two i j d1 d2 e (inl (a, b)) (inr l) =
        absurd (available_lem d.subdomain st j d2 free l (sym e ∙ ap (λ x. x.subdomain) b))
    two i j d1 d2 e (inr l) (inl (a, b)) =
        absurd (available_lem d.subdomain st i d1 free l (e ∙ ap (λ x. x.subdomain) b))
    two i j d1 d2 e (inr l) (inr l') = distinct i j d1 d2 l l' e

delete_domain-Inv : (i : ℕ) (st : Store) → Inv st → Inv (delete_domain i st)
unfolding delete_domain
delete_domain-Inv i st (u, below, distinct, valid) = (
  delete-Unique i st.rows u,
  (λ j d l. below j d (left j d l)),
  (λ j k d d' l l'. distinct j k d d' (left j d l) (left k d' l')),
  (λ j d l. valid j d (left j d l)),
)
  where
    left :
        (j : ℕ) (d : ReservedDomain)
        → lookup j (delete i st.rows) ≡ some d
        → lookup j st.rows ≡ some d
    left j d l = ground (arith, lookup-delete i j st.rows)

-- A request reserves a subdomain or changes nothing.
pub reserve_cases :
    (o : Outside) (u : Caller) (name : Bytes) (st : Store)
    → ((handle_reserve_domain o (some u) (some name) st ≡ (
      create_domain st.next_id (record { user_id = u.id; subdomain = name; created_at = o.now }) st,
      reserved st.next_id,
    ))
        × (valid_subdomain name ≡ true)
        × (at_limit (count u.id st) (max_domains u.plan_max_domains) ≡ false)
        × (is_available name st ≡ true))
      ⊎ ((handle_reserve_domain o (some u) (some name) st).0 ≡ st)
unfolding handle_reserve_domain
reserve_cases o u name st = ground arith

-- A request releases the subdomain of a row or changes nothing.
pub release_cases :
    (o : Outside) (u : Caller) (i : ℕ) (st : Store)
    → ((d : ReservedDomain) × (lookup i st.rows ≡ some d)
        × (not_owner u d ≡ false)
        × (handle_release_domain o (some u) (some (pos i)) st ≡ (delete_domain i st, released)))
      ⊎ ((handle_release_domain o (some u) (some (pos i)) st).0 ≡ st)
unfolding handle_release_domain
release_cases o u i st = elim (Option-cases (lookup i st.rows)) [
  | inl e ↦ inr (rw e (ground arith))
  | inr (d, e) ↦ elim (Bool-cases (not_owner u d)) [
    | inl n ↦ inr (rw e (ground arith))
    | inr n ↦ elim (Bool-cases (o.read_fails || o.write_fails)) [
      | inl f ↦ inr (rw e (ground arith))
      | inr f ↦ inl (d, e, n, rw e (ground arith))
    ]
  ]
]

handle_reserve_domain-Inv :
    (o : Outside) (u : Option Caller) (request : Option Bytes) (st : Store)
    → Inv st
    → Inv (handle_reserve_domain o u request st).0
unfolding handle_reserve_domain
handle_reserve_domain-Inv o none request st inv = inv
handle_reserve_domain-Inv o (some u) none st inv = inv
handle_reserve_domain-Inv o (some u) (some name) st inv = elim (reserve_cases o u name st) [
  | inl (e, valid, below, free) ↦ rw e (
      create_domain-Inv (record { user_id = u.id; subdomain = name; created_at = o.now }) st inv
        free valid)
  | inr e ↦ rw e inv
]

handle_release_domain-Inv :
    (o : Outside) (u : Option Caller) (request : Option ℤ) (st : Store)
    → Inv st
    → Inv (handle_release_domain o u request st).0
unfolding handle_release_domain
handle_release_domain-Inv o none request st inv = inv
handle_release_domain-Inv o (some u) none st inv = inv
handle_release_domain-Inv o (some u) (some (negsuc k)) st inv = inv
handle_release_domain-Inv o (some u) (some (pos i)) st inv = elim (release_cases o u i st) [
  | inl (d, l, own, e) ↦ rw e (delete_domain-Inv i st inv)
  | inr e ↦ rw e inv
]

-- A request to reserve or to release.
pub data Op : Type 0 where
  reserve : Outside → Option Caller → Option Bytes → Op
  release : Outside → Option Caller → Option ℤ → Op

unfoldable pub step : Store → Op → Store
step st (reserve o u request) = (handle_reserve_domain o u request st).0
step st (release o u request) = (handle_release_domain o u request st).0

unfoldable pub steps : Store → List Op → Store
steps st [] = st
steps st (op ∷ ops) = steps (step st op) ops

unfoldable pub no_domains : Store
no_domains = record { rows = []; next_id = 1 }

step-Inv : (op : Op) (st : Store) → Inv st → Inv (step st op)
unfolding step
step-Inv (reserve o u request) st inv = handle_reserve_domain-Inv o u request st inv
step-Inv (release o u request) st inv = handle_release_domain-Inv o u request st inv

steps-Inv : (ops : List Op) (st : Store) → Inv st → Inv (steps st ops)
unfolding steps
steps-Inv [] st inv = inv
steps-Inv (op ∷ ops) st inv = steps-Inv ops (step st op) (step-Inv op st inv)

-- After any history of reservations and releases from an empty table, ids are below the next one, no
-- subdomain is reserved twice, and each is valid.
pub steps-no_domains-Inv : (ops : List Op) → Inv (steps no_domains ops)
unfolding no_domains lookup
steps-no_domains-Inv ops =
    steps-Inv ops no_domains (tt, (λ i d l. cc), (λ i j d d' l. cc), λ i d l. cc)
