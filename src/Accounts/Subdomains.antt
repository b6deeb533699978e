-- ===== src/Accounts/Subdomains.antt =====
-- The regular expression `^[a-z0-9]([a-z0-9-]{0,30}[a-z0-9])?$` of internal/api/handlers_domains.go.
use fxtun_dev.Base.{
  ℕ, zero, suc, ◌≡◌, Bool, true, false, not, ◌&&◌, ◌||◌, [], ◌∷◌, arith, leb, eqb, length,
}
use fxtun_dev.Base.Bytes.{Bytes}

abbrev pub hyphen : ℕ
hyphen = 45

-- `[a-z0-9]`.
abbrev pub alnum : ℕ → Bool
alnum c = (leb 97 c && leb c 122) || (leb 48 c && leb c 57)

-- `[a-z0-9-]`.
abbrev pub alnum_hyphen : ℕ → Bool
alnum_hyphen c = alnum c || eqb c hyphen

-- `[a-z0-9-]{0,n}[a-z0-9]$`.
unfoldable pub match_rest : ℕ → Bytes → Bool
match_rest n [] = false
match_rest zero (c ∷ []) = alnum c
match_rest zero (c ∷ d ∷ s) = false
match_rest (suc n) (c ∷ []) = alnum c
match_rest (suc n) (c ∷ d ∷ s) = alnum_hyphen c && match_rest n (d ∷ s)

unfoldable pub valid_subdomain : Bytes → Bool
valid_subdomain [] = false
valid_subdomain (c ∷ []) = alnum c
valid_subdomain (c ∷ d ∷ s) = alnum c && match_rest 30 (d ∷ s)

abbrev pub all_of : Bytes → Bool
all_of [] = true
all_of (c ∷ s) = alnum_hyphen c && all_of s

abbrev pub starts_plain : Bytes → Bool
starts_plain [] = false
starts_plain (c ∷ s) = not (eqb c hyphen)

abbrev pub ends_plain : Bytes → Bool
ends_plain [] = false
ends_plain (c ∷ []) = not (eqb c hyphen)
ends_plain (c ∷ d ∷ s) = ends_plain (d ∷ s)

alnum_lem : (c : ℕ) → alnum c ≡ alnum_hyphen c && not (eqb c hyphen)
alnum_lem c = ground arith

match_rest_lem :
    (n : ℕ) (s : Bytes) → match_rest n s ≡ leb (length s) (suc n) && all_of s && ends_plain s
unfolding match_rest
match_rest_lem n [] = ground arith
match_rest_lem zero (c ∷ []) = ground arith
match_rest_lem zero (c ∷ d ∷ s) = ground arith
match_rest_lem (suc n) (c ∷ []) = ground arith
match_rest_lem (suc n) (c ∷ d ∷ s) = ground (arith, match_rest_lem n (d ∷ s))

-- A subdomain is valid exactly if it has 1 to 32 lower-case letters, digits and hyphens, and neither
-- starts nor ends with a hyphen.
pub valid_subdomain_lem :
    (s : Bytes)
    → valid_subdomain s ≡ leb (length s) 32 && all_of s && starts_plain s && ends_plain s
unfolding valid_subdomain
valid_subdomain_lem [] = ground arith
valid_subdomain_lem (c ∷ []) = ground arith
valid_subdomain_lem (c ∷ d ∷ s) = ground (arith, match_rest_lem 30 (d ∷ s))
