-- ===== src/Billing/Domains.antt =====
-- isPaymentEnabledForDomain of internal/api/handlers_payment.go.
use fxtun_dev.Base.{
  ℕ, ◌≡◌, ◌↔◌, Bool, true, false, not, Option, none, some, List, [], ◌∷◌, ◌++◌, arith,
  if◌then◌else◌, nat_eq,
}
use fxtun_dev.Base.Bytes.{bytes_eq, codes}
use fxtun_dev.Base.Dict.{Dict, lookup}
use fxtun_dev.Server.Hosts.{cut_port, has_colon}
use fxtun_dev.Server.Hosts.Names.{cut_port-append}

pub record PaymentDomainSettings : Type 0 where
  pub enabled : Bool
  pub message : List ℕ

or_default : List ℕ → List ℕ
or_default [] = codes "payments are not available for this domain"
or_default (c ∷ cs) = c ∷ cs

-- With the settings of the domain, if it has any, and `YooKassa.Enabled`.
unfoldable pub with_settings : Option PaymentDomainSettings → Bool → Bool × List ℕ
unfolding or_default
with_settings none yookassa = (yookassa, codes "payments are not enabled")
with_settings (some s) yookassa =
    if not s.enabled
    then (false, or_default s.message)
    else (yookassa, codes "payments are not enabled")

unfoldable pub is_payment_enabled_for_domain :
    Dict (List ℕ) PaymentDomainSettings → Bool → List ℕ → Bool × List ℕ
is_payment_enabled_for_domain domains yookassa host =
    with_settings (lookup (cut_port host) domains) yookassa

abbrev pub disabled : Option PaymentDomainSettings → Bool
disabled none = false
disabled (some s) = not s.enabled

-- Payments are enabled for a host exactly if YooKassa is on and the host's domain is not switched off;
-- the port of the host does not matter.
pub is_payment_enabled_for_domain_iff :
    (domains : Dict (List ℕ) PaymentDomainSettings) (yookassa : Bool) (host port : List ℕ)
    → has_colon port ≡ false
    → (((is_payment_enabled_for_domain domains yookassa (host ++ (58 ∷ port))).0 ≡ true)
        ↔ ((yookassa ≡ true) × (disabled (lookup host domains) ≡ false)))
unfolding is_payment_enabled_for_domain with_settings
is_payment_enabled_for_domain_iff domains yookassa host port h =
    rw (cut_port-append host port h) (switched (lookup host domains))
  where
    switched :
        (r : Option PaymentDomainSettings)
        → (((with_settings r yookassa).0 ≡ true) ↔ ((yookassa ≡ true) × (disabled r ≡ false)))
    switched none = ground arith
    switched (some s) = ground arith
