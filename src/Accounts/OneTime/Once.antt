-- ===== src/Accounts/OneTime/Once.antt =====
-- A code and a state are handed out once, and a code in time.
use fxtun_dev.Base.{
  ℕ, ◌+◌, ◌-◌, ◌*◌, ◌≤◌, ◌≡◌, ◌≢◌, Bool, true, false, not, Option, none, some, List, arith, inl,
  inr, if◌then◌else◌, ◌==◌, is_some, All, Bool-cases,
}
use fxtun_dev.Base.Bytes.{Bytes, bytes_eq}
use fxtun_dev.Base.Dict.{lookup, lookup-insert, lookup-delete}
use fxtun_dev.Base.Sweeping.{lookup-sweep}
use fxtun_dev.Base.Histories.{run, total, total_le, run_inv}
use fxtun_dev.Accounts.OneTime.{
  StateEntry, CodeEntry, OauthStore, create_state, consume_state, create_code, exchange_code,
  cleanup, code_ttl, outlived,
}

pub data Op : Type 0 where
  creates_state : ℕ → Option Bytes → StateEntry → Op
  consumes_state : ℕ → Bytes → Op
  creates_code : ℕ → Option Bytes → Bytes → Bytes → ℕ → Op
  exchanges_code : ℕ → Bytes → Op
  cleans_up : ℕ → Op

unfoldable pub step : Op → OauthStore → OauthStore
step (creates_state now text entry) s = (create_state now text entry s).0
step (consumes_state now text) s = (consume_state now text s).0
step (creates_code now code access refresh expires) s =
    (create_code now code access refresh expires s).0
step (exchanges_code now code) s = (exchange_code now code s).0
step (cleans_up now) s = cleanup now s

abbrev pub one_if : Bool → ℕ
one_if true = 1
one_if false = 0

-- Whether the operation hands out the tokens of the code, and whether it makes the code.
abbrev pub hands_out : Bytes → Op → OauthStore → ℕ
hands_out c (exchanges_code now code) s =
    if code == c then one_if (is_some (exchange_code now code s).1) else 0
hands_out c (creates_state now text entry) s = 0
hands_out c (consumes_state now text) s = 0
hands_out c (creates_code now code access refresh expires) s = 0
hands_out c (cleans_up now) s = 0

abbrev pub makes : Bytes → Op → OauthStore → ℕ
makes c (creates_code now (some code) access refresh expires) s = one_if (code == c)
makes c (creates_code now none access refresh expires) s = 0
makes c (exchanges_code now code) s = 0
makes c (creates_state now text entry) s = 0
makes c (consumes_state now text) s = 0
makes c (cleans_up now) s = 0

held : Bytes → OauthStore → ℕ
held c s = one_if (is_some (lookup c s.codes))

held_le :
    (c : Bytes) (op : Op) (s : OauthStore)
    → hands_out c op s + held c (step op s) ≤ held c s + makes c op s
unfolding held step create_state consume_state create_code exchange_code cleanup
held_le c (creates_state now none entry) s = omega arith
held_le c (creates_state now (some text) entry) s = omega arith
held_le c (consumes_state now text) s = ground arith
held_le c (creates_code now none access refresh expires) s = omega arith
held_le c (creates_code now (some code) access refresh expires) s = ground (
  arith,
  lookup-insert code c
      (record {
        access_token = access;
        refresh_token = refresh;
        expires_in = expires;
        created_at = now;
      })
      s.codes,
)
held_le c (exchanges_code now code) s =
    ground (arith, lookup-delete code c s.codes, bytes_eq.beq_iff code c)
held_le c (cleans_up now) s =
    ground (arith, lookup-sweep (λ e. not (outlived (code_ttl * 2) now e.created_at)) c s.codes)

-- In every history, the tokens of a code are handed out at most as often as the code is made, and once more
-- if the store has the code before.
pub hands_out_le :
    (c : Bytes) (ops : List Op) (s : OauthStore)
    → total step (hands_out c) ops s
      ≤ one_if (is_some (lookup c s.codes)) + total step (makes c) ops s
unfolding held
hands_out_le c ops s = total_le step (held c) (hands_out c) (makes c) (held_le c) ops s

-- The operations that leave the code where it is: no exchange of it, no second code of its name, and no
-- tick later than twice its time.
abbrev pub Spares : Bytes → ℕ → Op → Type 0
Spares c created (creates_state now text entry) = Unit
Spares c created (consumes_state now text) = Unit
Spares c created (creates_code now none access refresh expires) = Unit
Spares c created (creates_code now (some code) access refresh expires) = code ≢ c
Spares c created (exchanges_code now code) = code ≢ c
Spares c created (cleans_up now) = outlived (code_ttl * 2) now created ≡ false

other_code : (a b : Bytes) → a ≢ b → (a == b) ≡ false
other_code a b n = elim (Bool-cases (a == b)) [
  | inl e ↦ absurd (n ((bytes_eq.beq_iff a b).0 e))
  | inr e ↦ e
]

spared :
    (c : Bytes) (entry : CodeEntry) (op : Op) (s : OauthStore)
    → Spares c entry.created_at op
    → lookup c s.codes ≡ some entry
    → lookup c (step op s).codes ≡ some entry
unfolding step create_state consume_state create_code exchange_code cleanup
spared c entry (creates_state now none e) s q l = l
spared c entry (creates_state now (some text) e) s q l = l
spared c entry (consumes_state now text) s q l = ground arith
spared c entry (creates_code now none access refresh expires) s q l = l
spared c entry (creates_code now (some code) access refresh expires) s q l = ground (
  arith,
  lookup-insert code c
      (record {
        access_token = access;
        refresh_token = refresh;
        expires_in = expires;
        created_at = now;
      })
      s.codes,
  other_code code c q,
)
spared c entry (exchanges_code now code) s q l =
    ground (arith, lookup-delete code c s.codes, other_code code c q)
spared c entry (cleans_up now) s q l =
    ground (arith, lookup-sweep (λ e. not (outlived (code_ttl * 2) now e.created_at)) c s.codes)

-- A code that was made is exchanged for its tokens within two minutes, whatever else happens between, if
-- nobody else exchanges it and no tick sees it older than twice its time.
pub exchange_code-create_code :
    (c access refresh : Bytes) (expires created now : ℕ) (ops : List Op) (s : OauthStore)
    → All (Spares c created) ops
    → now - created ≤ code_ttl
    → (exchange_code now c
        (run step ops (create_code created (some c) access refresh expires s).0)).1
      ≡ some (record {
        access_token = access;
        refresh_token = refresh;
        expires_in = expires;
        created_at = created;
      })
unfolding exchange_code create_code
exchange_code-create_code c access refresh expires created now ops s q t =
    let entry : CodeEntry = record {
      access_token = access;
      refresh_token = refresh;
      expires_in = expires;
      created_at = created;
    } in
    let l : lookup c (run step ops (create_code created (some c) access refresh expires s).0).codes
        ≡ some entry =
      run_inv step (λ x. lookup c x.codes ≡ some entry) (Spares c created) (spared c entry) ops q _
        (ground (arith, lookup-insert c c entry s.codes, bytes_eq.beq_iff c c)) in
    ground (arith, l)
