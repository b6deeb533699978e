-- ===== src/Server/Hosts/Names.antt =====
-- Hosts that lead to a tunnel, and what a bounded capture keeps.
use fxtun_dev.Base.{
  ℕ, zero, suc, ◌-◌, ◌≤◌, ◌≡◌, refl, sym, ap, ◌∙◌, ◌≢◌, inl, inr, true, false, ◌&&◌, ◌||◌, Option,
  none, some, List, [], ◌∷◌, ◌++◌, arith, ltb, eqb, if◌then◌else◌, eqb_iff, Bool-cases, nat_eq,
  length, take, drop, length-append, length-take,
}
use mathlib.Core.List.{append_assoc, append-nil}
use fxtun_dev.Base.Bytes.{Bytes, bytes_eq, bytes_beq, bytes_beq_iff, codes, to_lower, lower}
use fxtun_dev.Base.Dict.{lookup-insert}
use fxtun_dev.Protocol.Io.{write}
use fxtun_dev.Access.{has_prefix, has_suffix}
use fxtun_dev.Server.Hosts.{
  colon, dot, has_colon, cut_port, trim_www, before_suffix, search_domains, extract_subdomain,
  CustomDomains, lookup_custom_domain, add_custom_domain, LimitedWriter, limited, write_limited,
}

has_colon-append : (s t : Bytes) → has_colon (s ++ t) ≡ (has_colon s || has_colon t)
has_colon-append [] t = refl
has_colon-append (b ∷ s) t = ground (arith, has_colon-append s t)

-- A port after the host is cut off.
pub cut_port-append :
    (host port : Bytes) → has_colon port ≡ false → cut_port (host ++ (colon ∷ port)) ≡ host
cut_port-append [] port h = ground (arith, h)
cut_port-append (b ∷ host) port h =
    ground (arith, cut_port-append host port h, has_colon-append host (colon ∷ port))

drop_all_of : (p r : Bytes) → drop (length p) (p ++ r) ≡ r
drop_all_of [] r = refl
drop_all_of (b ∷ p) r = drop_all_of p r

take_all_of : (p r : Bytes) → take (length p) (p ++ r) ≡ p
take_all_of [] r = refl
take_all_of (b ∷ p) r = ap (λ (t : Bytes). b ∷ t) (take_all_of p r)

label_length : (label suffix : Bytes) → length (label ++ suffix) - length suffix ≡ length label
label_length label suffix = omega (arith, length-append label suffix)

ends : (label suffix : Bytes) → has_suffix suffix (label ++ suffix) ≡ true
unfolding has_suffix
ends label suffix =
    rw (label_length label suffix, drop_all_of label suffix)
      (ground (arith, length-append label suffix, bytes_beq_iff suffix suffix))

begins : (label suffix : Bytes) → before_suffix suffix (label ++ suffix) ≡ label
begins label suffix = rw (label_length label suffix) (take_all_of label suffix)

-- The public name of a tunnel, a label in front of the base domain with a port behind, leads back to the label
-- in lower case, unless the label is empty, is "www", or the name begins with "www.".
pub extract_subdomain-public_name :
    (label base port : Bytes) (aliases : List Bytes)
    → label ≢ []
    → label ≢ codes "www"
    → has_prefix (codes "www.") (label ++ (dot ∷ base)) ≡ false
    → has_colon port ≡ false
    → extract_subdomain base aliases ((label ++ (dot ∷ base)) ++ (colon ∷ port)) ≡ to_lower label
unfolding extract_subdomain search_domains trim_www
extract_subdomain-public_name label base port aliases nonempty not_www no_prefix no_colon =
    rw
      (
        cut_port-append (label ++ (dot ∷ base)) port no_colon,
        no_prefix,
        ends label (dot ∷ base),
        begins label (dot ∷ base),
      )
      (ground (arith, bytes_beq_iff label [], bytes_beq_iff label (codes "www"), nonempty, not_www))

to_lower-append : (s t : Bytes) → to_lower (s ++ t) ≡ to_lower s ++ to_lower t
unfolding to_lower
to_lower-append [] t = refl
to_lower-append (b ∷ s) t = ap (λ (u : Bytes). lower b ∷ u) (to_lower-append s t)

has_colon-to_lower : (s : Bytes) → has_colon (to_lower s) ≡ has_colon s
unfolding to_lower lower
has_colon-to_lower [] = refl
has_colon-to_lower (b ∷ s) = ground (arith, has_colon-to_lower s)

to_lower-colon : (port : Bytes) → to_lower (colon ∷ port) ≡ colon ∷ to_lower port
unfolding to_lower lower
to_lower-colon port = refl

-- A custom domain that was added is found by the host of a request with a port, in any spelling of its case, and
-- every other host leads where it led before.
pub lookup_custom_domain-add_custom_domain {ℓ} :
    {D : Type ℓ} (domain host port : Bytes) (d : D) (m : CustomDomains D)
    → has_colon port ≡ false
    → lookup_custom_domain (host ++ (colon ∷ port)) (add_custom_domain domain d m) ≡ (
        if bytes_beq (to_lower domain) (to_lower host)
        then some d
        else lookup_custom_domain (host ++ (colon ∷ port)) m)
unfolding lookup_custom_domain add_custom_domain
lookup_custom_domain-add_custom_domain domain host port d m no_colon =
    rw
      (
        to_lower-append host (colon ∷ port),
        to_lower-colon port,
        cut_port-append (to_lower host) (to_lower port) (has_colon-to_lower port ∙ no_colon),
      )
      (lookup-insert (to_lower domain) (to_lower host) d m)

take_nil : (n : ℕ) → take {A = ℕ} n [] ≡ []
take_nil zero = refl
take_nil (suc n) = refl

take_same : (m n : ℕ) (q : Bytes) → m ≡ n → take m q ≡ take n q
take_same m n q e = ap (λ (k : ℕ). take k q) e

take-append : (n : ℕ) (p q : Bytes) → take n (p ++ q) ≡ take n p ++ take (n - length p) q
take-append zero [] q = refl
take-append (suc n) [] q = take_same (suc n) (suc n - 0) q (omega arith)
take-append zero (b ∷ p) q = take_same 0 (0 - length (b ∷ p)) q (omega arith)
take-append (suc n) (b ∷ p) q =
    ap (λ (t : Bytes). b ∷ t) (take-append n p q)
    ∙ ap (λ (t : Bytes). b ∷ (take n p ++ t))
        (take_same (n - length p) (suc n - length (b ∷ p)) q (omega arith))

take_long : (n : ℕ) (p : Bytes) → length p ≤ n → take n p ≡ p
take_long n [] h = take_nil n
take_long zero (b ∷ p) h = absurd (omega arith)
take_long (suc n) (b ∷ p) h = ap (λ (t : Bytes). b ∷ t) (take_long n p (omega arith))

-- One write, where the inner writer takes what may still go out.
write_limited_lem :
    (p : Bytes) (lw : LimitedWriter)
    → lw.remaining ≤ lw.w.room
    → (lw' : LimitedWriter) × (write_limited p lw ≡ (lw', length p, true))
      × (lw'.w.sent ≡ lw.w.sent ++ take lw.remaining p)
      × (lw'.remaining ≡ lw.remaining - length p)
      × (lw'.remaining ≤ lw'.w.room)
unfolding write_limited limited write
write_limited_lem p lw h = elim (Bool-cases (eqb lw.remaining 0)) [
  | inl spent ↦ (
    lw,
    ground (arith, spent),
    rw ((eqb_iff lw.remaining 0).0 spent) (sym (append-nil lw.w.sent)),
    ground (arith, spent),
    h,
  )
  | inr left ↦ elim (Bool-cases (ltb lw.remaining (length p))) [
    | inl long ↦ (
      record {
        w = record {
          sent = lw.w.sent ++ take lw.remaining p;
          room = lw.w.room - length (take lw.remaining p);
        };
        remaining = lw.remaining - lw.remaining;
      },
      ground (arith, left, long, length-take lw.remaining p),
      refl,
      ground (arith, long),
      ground (arith, length-take lw.remaining p),
    )
    | inr short ↦ (
      record {
        w = record {
          sent = lw.w.sent ++ take (length p) p;
          room = lw.w.room - length (take (length p) p);
        };
        remaining = lw.remaining - length p;
      },
      ground (arith, left, short, length-take (length p) p),
      ground (arith, short, take_long lw.remaining p, take_long (length p) p),
      refl,
      ground (arith, short, length-take (length p) p),
    )
  ]
]

-- Writes in a row; `none` if one of them reports an error or less than all of its bytes.
abbrev pub write_all : List Bytes → LimitedWriter → Option LimitedWriter
write_all [] lw = some lw
write_all (p ∷ ps) lw =
    let rest = write_all ps (write_limited p lw).0 in
    if (write_limited p lw).2 && eqb (write_limited p lw).1 (length p) then rest else none

abbrev pub concat : List Bytes → Bytes
concat [] = []
concat (p ∷ ps) = p ++ concat ps

-- Where the inner writer takes what may still go out, writes in a row all report success and all of their bytes,
-- and what goes out is the beginning of what was written, as long as the limit allows.
pub write_all_lem :
    (ps : List Bytes) (lw : LimitedWriter)
    → lw.remaining ≤ lw.w.room
    → (lw' : LimitedWriter) × (write_all ps lw ≡ some lw')
      × (lw'.w.sent ≡ lw.w.sent ++ take lw.remaining (concat ps))
write_all_lem [] lw h = (lw, refl, rw (take_nil lw.remaining) (sym (append-nil lw.w.sent)))
write_all_lem (p ∷ ps) lw h =
    let (lw1, e, sent, less, fits) = write_limited_lem p lw h in
    let (lw2, es, all) = write_all_lem ps lw1 fits in
    (
      lw2,
      ground (arith, e, es),
      all
          ∙ rw (sent, less)
              (rw
                (append_assoc lw.w.sent (take lw.remaining p)
                  (take (lw.remaining - length p) (concat ps)))
                (ap (λ (t : Bytes). lw.w.sent ++ t)
                  (sym (take-append lw.remaining p (concat ps))))),
    )
