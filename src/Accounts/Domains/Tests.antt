-- ===== src/Accounts/Domains/Tests.antt =====
-- Reserved domains at concrete inputs.
use fxtun_dev.Base.{◌≡◌, ◌⊎◌, refl, true, false, none, some, List, [], ◌∷◌, nat_eq}
use fxtun_dev.Base.Bytes.{codes}
use fxtun_dev.Base.Int.{pos}
use fxtun_dev.Base.Dict.{lookup, insert}
use fxtun_dev.Base.Tables.{select}
use fxtun_dev.Accounts.Subdomains.{valid_subdomain, match_rest}
use fxtun_dev.Accounts.Domains.{
  ReservedDomain, Caller, Outside, create_domain, handle_reserve_domain, handle_release_domain,
  count, is_available,
}
use fxtun_dev.Accounts.Domains.Laws.{
  Op, reserve, release, step, steps, no_domains, steps-no_domains-Inv,
}
use fxtun_dev.Accounts.Domains.Owners.{Entitled, step-lookup}

abbrev fine : Outside
fine = record { now = 5; read_fails = false; write_fails = false }

abbrev ann : Caller
ann = record { id = 1; is_admin = false; plan_max_domains = none }

abbrev bob : Caller
bob = record { id = 2; is_admin = false; plan_max_domains = some (pos 3) }

-- Bob asks for a taken name, then for one with a hyphen in front, then to release the one of Ann.
abbrev history : List Op
history =
    reserve fine (some ann) (some (codes "shop"))
    ∷ reserve fine (some bob) (some (codes "shop"))
    ∷ reserve fine (some bob) (some (codes "-x"))
    ∷ release fine (some bob) (some (pos 1))
    ∷ []

abbrev shop : ReservedDomain
shop = record { user_id = 1; subdomain = codes "shop"; created_at = 5 }

one_row : (steps no_domains history).rows ≡ (1, shop) ∷ []
unfolding steps step handle_release_domain lookup handle_reserve_domain valid_subdomain match_rest
    count select no_domains is_available create_domain insert
one_row = refl

shop_there : lookup 1 (steps no_domains history).rows ≡ some shop
unfolding steps step handle_release_domain lookup handle_reserve_domain valid_subdomain match_rest
    count select no_domains is_available create_domain insert
shop_there = refl

ann_has_one : count 1 (steps no_domains history) ≡ 1
unfolding steps step handle_release_domain lookup handle_reserve_domain valid_subdomain match_rest
    count select no_domains is_available create_domain insert
ann_has_one = refl

-- One letter is enough.
short_name : valid_subdomain (codes "x") ≡ true
unfolding valid_subdomain
short_name = refl

bob_may_not :
    (lookup 1 (step (steps no_domains history) (release fine (some bob) (some (pos 1)))).rows
      ≡ some shop)
    ⊎ Entitled 1 shop (release fine (some bob) (some (pos 1)))
bob_may_not =
    step-lookup (release fine (some bob) (some (pos 1))) (steps no_domains history) 1 shop
      (steps-no_domains-Inv history) shop_there
