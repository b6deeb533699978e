-- ===== src/Access/Patterns.antt =====
-- What the patterns of a token mean.
use fxtun_dev.Base.{
  ℕ, zero, suc, ◌+◌, ◌-◌, ◌≡◌, refl, sym, ap, ◌∙◌, ◌↔◌, ◌⊎◌, inl, inr, Bool, true, ◌&&◌, none, some,
  List, [], ◌∷◌, ◌++◌, arith, leb, Bool-cases, Option-cases, nat_eq, length, get_elem?, take, drop,
  length-append,
}
use mathlib.Core.List.{append-nil}
use fxtun_dev.Base.Bytes.{Bytes, bytes_eq, bytes_beq, bytes_beq_iff}
use fxtun_dev.Access.{
  has_prefix, has_suffix, star, split_star, TokenConfig, allows_pattern, any_pattern,
  can_use_subdomain, api_allows_pattern, match_wildcard, last_byte,
}

has_prefix-append : (p r : Bytes) → has_prefix p (p ++ r) ≡ true
has_prefix-append [] r = refl
has_prefix-append (b ∷ p) r = ground (arith, has_prefix-append p r)

has_prefix_rest : (p s : Bytes) → has_prefix p s ≡ true → (r : Bytes) × (s ≡ p ++ r)
has_prefix_rest [] s e = (s, refl)
has_prefix_rest (b ∷ p) [] e = absurd (ground arith)
has_prefix_rest (b ∷ p) (c ∷ s) e =
    let (r, q) = has_prefix_rest p s (ground arith) in (r, ground (arith, q))

drop-append : (p r : Bytes) (n k : ℕ) → n ≡ length p + k → drop n (p ++ r) ≡ drop k r
drop-append [] r n k e = ap (λ (x : ℕ). drop x r) (omega arith)
drop-append (b ∷ p) r zero k e = absurd (omega arith)
drop-append (b ∷ p) r (suc n) k e = drop-append p r n k (omega arith)

drop-append_exact : (p r : Bytes) → drop (length p) (p ++ r) ≡ r
drop-append_exact [] r = refl
drop-append_exact (b ∷ p) r = drop-append_exact p r

take-drop : (k : ℕ) (s : Bytes) → take k s ++ drop k s ≡ s
take-drop zero s = refl
take-drop (suc k) [] = refl
take-drop (suc k) (b ∷ s) = ap (λ (t : Bytes). b ∷ t) (take-drop k s)

-- A string has a prefix, and behind it a suffix, that do not overlap, exactly when something stands between.
prefix_suffix_iff :
    (pre post s : Bytes)
    → (((has_prefix pre s && has_suffix post s) && leb (length pre + length post) (length s))
        ≡ true)
      ↔ ((mid : Bytes) × (s ≡ pre ++ (mid ++ post)))
unfolding has_suffix
prefix_suffix_iff pre post s = (λ e. found e, λ (mid, e). rw e (fits mid))
  where
    found :
        ((has_prefix pre s && has_suffix post s) && leb (length pre + length post) (length s))
          ≡ true
        → (mid : Bytes) × (s ≡ pre ++ (mid ++ post))
    found e =
        let (r, q) = has_prefix_rest pre s (ground (arith, e)) in
        let k = length s - length post - length pre in
        let tail : drop k r ≡ post = ground (
          arith,
          e,
          q,
          drop-append pre r (length s - length post) k,
          length-append pre r,
          bytes_beq_iff (drop (length s - length post) s) post,
        ) in
        (
          take k r,
          q
              ∙ ap (λ (t : Bytes). pre ++ t)
                  (sym (take-drop k r) ∙ ap (λ (t : Bytes). take k r ++ t) tail),
        )

    fits :
        (mid : Bytes)
        → ((has_prefix pre (pre ++ (mid ++ post)) && has_suffix post (pre ++ (mid ++ post)))
            && leb (length pre + length post) (length (pre ++ (mid ++ post))))
          ≡ true
    fits mid = ground (
      arith,
      has_prefix-append pre (mid ++ post),
      length-append pre (mid ++ post),
      length-append mid post,
      bytes_beq_iff (drop (length (pre ++ (mid ++ post)) - length post) (pre ++ (mid ++ post)))
          post,
      drop-append pre (mid ++ post) (length (pre ++ (mid ++ post)) - length post) (length mid),
      drop-append_exact mid post,
    )

split_star-single :
    (pre post : Bytes) → split_star (star ∷ []) ≡ some (pre, post) → (pre ≡ []) × (post ≡ [])
split_star-single pre post e = ground arith

with_star :
    (pattern s pre post : Bytes)
    → split_star pattern ≡ some (pre, post)
    → (allows_pattern pattern s ≡ true) ↔ ((mid : Bytes) × (s ≡ pre ++ (mid ++ post)))
unfolding allows_pattern
with_star pattern s pre post e = elim (Bool-cases (bytes_beq pattern (star ∷ []))) [
  | inl whole ↦
      let (no_pre, no_post) =
        split_star-single pre post (rw ((bytes_beq_iff pattern (star ∷ [])).0 whole) at e) in
      (λ h. (s, rw (no_pre, no_post) (sym (append-nil s))), λ m. ground (arith, whole))
  | inr other ↦
      let fit = prefix_suffix_iff pre post s in
      (λ h. fit.0 (ground (arith, other, e, h)), λ m. ground (arith, other, e, fit.1 m))
]

without_star :
    (pattern s : Bytes)
    → split_star pattern ≡ none
    → (allows_pattern pattern s ≡ true) ↔ (pattern ≡ s)
unfolding allows_pattern
without_star pattern s e = elim (Bool-cases (bytes_beq pattern (star ∷ []))) [
  | inl whole ↦ absurd (ground (arith, rw ((bytes_beq_iff pattern (star ∷ [])).0 whole) at e))
  | inr other ↦ ground (arith, other, e, bytes_beq_iff pattern s)
]

-- A pattern of a configured token with a '*', split at the first one, allows exactly the subdomains that begin
-- with the one part and end with the other, without an overlap. A pattern without a '*' allows itself alone.
pub allows_pattern_iff :
    (pattern subdomain : Bytes)
    → ((pre post : Bytes) × (split_star pattern ≡ some (pre, post))
        × ((allows_pattern pattern subdomain ≡ true)
            ↔ ((mid : Bytes) × (subdomain ≡ pre ++ (mid ++ post)))))
      ⊎ ((split_star pattern ≡ none)
          × ((allows_pattern pattern subdomain ≡ true) ↔ (pattern ≡ subdomain)))
allows_pattern_iff pattern subdomain = elim (Option-cases (split_star pattern)) [
  | inl plain ↦ inr (plain, without_star pattern subdomain plain)
  | inr ((pre, post), split) ↦ inl (pre, post, split, with_star pattern subdomain pre post split)
]

-- A pattern of the list that allows the string.
abbrev Allowing : (Bytes → Bytes → Bool) → List Bytes → Bytes → Type 0
Allowing f patterns s =
    (i : ℕ) × (pattern : Bytes) × (get_elem? patterns i ≡ some pattern) × (f pattern s ≡ true)

later :
    (f : Bytes → Bytes → Bool) (q : Bytes) (qs : List Bytes) (s : Bytes)
    → Allowing f qs s
    → Allowing f (q ∷ qs) s
later f q qs s (i, p, e, h) = (suc i, p, e, h)

any_pattern-Allowing :
    (f : Bytes → Bytes → Bool) (patterns : List Bytes) (s : Bytes)
    → any_pattern f patterns s ≡ true
    → Allowing f patterns s
any_pattern-Allowing f [] s e = absurd (ground (arith, e))
any_pattern-Allowing f (q ∷ qs) s e = elim (Bool-cases (f q s)) [
  | inl here ↦ (zero, q, refl, here)
  | inr other ↦ later f q qs s (any_pattern-Allowing f qs s (ground (arith, e, other)))
]

Allowing-any_pattern :
    (f : Bytes → Bytes → Bool) (patterns : List Bytes) (s p : Bytes) (i : ℕ)
    → get_elem? patterns i ≡ some p
    → f p s ≡ true
    → any_pattern f patterns s ≡ true
Allowing-any_pattern f [] s p i e h = absurd (ground (arith, e))
Allowing-any_pattern f (q ∷ qs) s p zero e h = ground (arith, e, h)
Allowing-any_pattern f (q ∷ qs) s p (suc i) e h =
    ground (arith, Allowing-any_pattern f qs s p i e h)

-- A configured token allows a subdomain exactly when one of its patterns does.
pub can_use_subdomain_iff :
    (t : TokenConfig) (subdomain : Bytes)
    → (can_use_subdomain t subdomain ≡ true) ↔ (
        (i : ℕ) × (pattern : Bytes) × (get_elem? t.allowed_subdomains i ≡ some pattern)
        × (allows_pattern pattern subdomain ≡ true))
unfolding can_use_subdomain
can_use_subdomain_iff t subdomain = (
  λ e. any_pattern-Allowing allows_pattern t.allowed_subdomains subdomain e,
  λ (i, p, e, h). Allowing-any_pattern allows_pattern t.allowed_subdomains subdomain p i e h,
)

last_byte-star : (b : ℕ) (p : Bytes) → last_byte b (p ++ (star ∷ [])) ≡ star
last_byte-star b [] = refl
last_byte-star b (c ∷ p) = last_byte-star c p

take-front : (b x : ℕ) (p : Bytes) → take (length (p ++ (x ∷ []))) (b ∷ (p ++ (x ∷ []))) ≡ b ∷ p
take-front b x [] = refl
take-front b x (c ∷ p) = ap (λ (t : Bytes). b ∷ t) (take-front c x p)

has_prefix_iff : (p s : Bytes) → (has_prefix p s ≡ true) ↔ ((r : Bytes) × (s ≡ p ++ r))
has_prefix_iff p s = (λ e. has_prefix_rest p s e, λ (r, e). rw e (has_prefix-append p r))

-- A pattern of a token of the database that ends with a '*' allows exactly the subdomains that begin with what
-- stands before this '*'.
pub api_allows_pattern_prefix :
    (pre subdomain : Bytes)
    → (api_allows_pattern (pre ++ (star ∷ [])) subdomain ≡ true)
      ↔ ((rest : Bytes) × (subdomain ≡ pre ++ rest))
unfolding api_allows_pattern match_wildcard
api_allows_pattern_prefix [] s = (λ e. (s, refl), λ r. refl)
api_allows_pattern_prefix (b ∷ p) s =
    elim (Bool-cases (bytes_beq (b ∷ (p ++ (star ∷ []))) (star ∷ []))) [
      | inl whole ↦ absurd (
          ground (
            arith,
            ap (λ (t : Bytes). length t)
                ((bytes_beq_iff (b ∷ (p ++ (star ∷ []))) (star ∷ [])).0 whole),
            length-append p (star ∷ []),
          ))
      | inr other ↦ (
        λ e.
            (has_prefix_iff (b ∷ p) s).0
              (ground (arith, other, e, last_byte-star b p, take-front b star p)),
        λ r.
            ground (
              arith,
              other,
              last_byte-star b p,
              take-front b star p,
              (has_prefix_iff (b ∷ p) s).1 r,
            ),
      )
    ]
