-- ===== src/Accounts/BackupCodes.antt =====
-- HashBackupCode, HashBackupCodes and ValidateBackupCode of internal/auth/totp.go. SHA-256 in hex and
-- `strings.ToUpper(strings.TrimSpace(…))` are parameters.
mod Tests
use fxtun_dev.Base.{
  ℕ, zero, suc, ◌+◌, ◌-◌, ◌<◌, ◌≡◌, refl, ap, ◌∙◌, ◌⊎◌, inl, inr, Bool, true, false, Option, none,
  some, List, [], ◌∷◌, ◌++◌, arith, if◌then◌else◌, Bool-cases, nat_eq, ◌==◌, length, get_elem?,
  take, drop,
}
use fxtun_dev.Base.Bytes.{Bytes, bytes_beq_iff, bytes_eq, codes}
use fxtun_dev.Access.{has_prefix}

right_zero : (i : ℕ) → i ≡ i + 0
right_zero i = omega arith

left_zero : (i : ℕ) → 0 + i ≡ i
left_zero i = omega arith

shift : (i k : ℕ) → suc i + k ≡ i + suc k
shift i k = omega arith

length-remove :
    (ss : List Bytes) (k : ℕ) (s : Bytes)
    → get_elem? ss k ≡ some s
    → length ss ≡ suc (length (take k ss ++ drop (suc k) ss))
length-remove [] k s e = cc
length-remove (t ∷ ss) zero s e = refl
length-remove (t ∷ ss) (suc k) s e = ap suc (length-remove ss k s e)

module _ (sha : Bytes → Bytes) (upper : Bytes → Bytes) where
  unfoldable pub hash_backup_code : Bytes → Bytes
  hash_backup_code code = codes "sha256:" ++ sha (upper code)

  unfoldable pub hash_backup_codes : List Bytes → List Bytes
  hash_backup_codes [] = []
  hash_backup_codes (c ∷ cs) = hash_backup_code c ∷ hash_backup_codes cs

  -- One round of the loop: whether the stored code is the given one.
  unfoldable pub matches : Bytes → Bytes → Bool
  matches code stored =
      if has_prefix (codes "sha256:") stored
      then stored == hash_backup_code code
      else upper stored == upper code

  -- `matchIdx` after the loop from the index i on; the last match counts.
  unfoldable pub match_idx : Bytes → ℕ → List Bytes → Option ℕ → Option ℕ
  match_idx code i [] found = found
  match_idx code i (s ∷ ss) found =
      match_idx code (suc i) ss (if matches code s then some i else found)

  unfoldable pub validate_backup_code : Bytes → List Bytes → List Bytes × Bool
  validate_backup_code code valid_codes = elim (match_idx code 0 valid_codes none) [
    | none ↦ (valid_codes, false)
    | some i ↦ (take i valid_codes ++ drop (suc i) valid_codes, true)
  ]

  -- How many of the stored codes are the given one.
  abbrev pub count_matches : Bytes → List Bytes → ℕ
  count_matches code [] = 0
  count_matches code (s ∷ ss) =
      if matches code s then suc (count_matches code ss) else count_matches code ss

  -- The index after the loop is the old one, or that of a match.
  match_idx_cases :
      (code : Bytes) (i : ℕ) (ss : List Bytes) (found : Option ℕ)
      → ((match_idx code i ss found ≡ found) × (count_matches code ss ≡ 0))
        ⊎ ((k : ℕ) × (s : Bytes) × (match_idx code i ss found ≡ some (i + k))
            × (get_elem? ss k ≡ some s)
            × (matches code s ≡ true))
  unfolding match_idx
  match_idx_cases code i [] found = inl (refl, refl)
  match_idx_cases code i (s ∷ ss) found = elim (Bool-cases (matches code s)) [
    | inl h ↦ elim (match_idx_cases code (suc i) ss (some i)) [
      | inl (e, n) ↦ inr (0, s, rw h (e ∙ ap some (right_zero i)), refl, h)
      | inr (k, t, e, g, m) ↦ inr (suc k, t, rw h (e ∙ ap some (shift i k)), g, m)
    ]
    | inr h ↦ elim (match_idx_cases code (suc i) ss found) [
      | inl (e, n) ↦ inl (rw h e, rw h n)
      | inr (k, t, e, g, m) ↦ inr (suc k, t, rw h (e ∙ ap some (shift i k)), g, m)
    ]
  ]

  count-remove :
      (code : Bytes) (ss : List Bytes) (k : ℕ) (s : Bytes)
      → get_elem? ss k ≡ some s
      → matches code s ≡ true
      → count_matches code ss ≡ suc (count_matches code (take k ss ++ drop (suc k) ss))
  count-remove code [] k s e m = cc
  count-remove code (t ∷ ss) zero s e m = ground arith
  count-remove code (t ∷ ss) (suc k) s e m = ground (arith, count-remove code ss k s)

  -- One stored code that is the given one goes and is accepted, or there is none and nothing changes.
  abbrev pub Consumes : Bytes → List Bytes → List Bytes × Bool → Type 0
  Consumes code ss after =
      ((after.1 ≡ true)
        × (count_matches code ss ≡ suc (count_matches code after.0))
        × (length ss ≡ suc (length after.0)))
      ⊎ ((after ≡ (ss, false)) × (count_matches code ss ≡ 0))

  -- A backup code is accepted exactly if some stored code is it; then one stored code that is it goes,
  -- and only one. A code that is refused changes nothing.
  pub validate_backup_code_lem :
      (code : Bytes) (ss : List Bytes) → Consumes code ss (validate_backup_code code ss)
  unfolding validate_backup_code
  validate_backup_code_lem code ss = elim (match_idx_cases code 0 ss none) [
    | inl (e, n) ↦ inr (rw (e, validate_backup_code), n)
    | inr (k, s, e, g, m) ↦
        let found : match_idx code 0 ss none ≡ some k = e ∙ ap some (left_zero k) in
        inl (
          rw (found, validate_backup_code),
          rw (found, validate_backup_code) (count-remove code ss k s g m),
          rw (found, validate_backup_code) (length-remove ss k s g),
        )
  ]

  -- A stored hash of a code that is spelled the same in upper case is the given code.
  matches-hash : (code c : Bytes) → upper code ≡ upper c → matches code (hash_backup_code c) ≡ true
  unfolding matches hash_backup_code
  matches-hash code c e =
      (bytes_beq_iff (codes "sha256:" ++ sha (upper c)) (codes "sha256:" ++ sha (upper code))).1
        (rw e refl)

  count-own :
      (code : Bytes) (cs : List Bytes) (k : ℕ) (c : Bytes)
      → get_elem? cs k ≡ some c
      → upper code ≡ upper c
      → 0 < count_matches code (hash_backup_codes cs)
  unfolding hash_backup_codes
  count-own code [] k c g e = cc
  count-own code (d ∷ cs) zero c g e =
      let same : upper code ≡ upper d = cc in
      let own : matches code (hash_backup_code d) ≡ true = matches-hash code d same in ground arith
  count-own code (d ∷ cs) (suc k) c g e = ground (arith, count-own code cs k c g e)

  -- A code of the list that was hashed is accepted in whatever spelling with the same upper case.
  pub validate_backup_code-hash_backup_codes :
      (code : Bytes) (cs : List Bytes) (k : ℕ) (c : Bytes)
      → get_elem? cs k ≡ some c
      → upper code ≡ upper c
      → (validate_backup_code code (hash_backup_codes cs)).1 ≡ true
  validate_backup_code-hash_backup_codes code cs k c g e =
      elim (validate_backup_code_lem code (hash_backup_codes cs)) [
        | inl (t, n, l) ↦ t
        | inr (r, n) ↦
            let own : 0 < count_matches code (hash_backup_codes cs) = count-own code cs k c g e in
            absurd (omega arith)
      ]
