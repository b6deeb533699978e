-- ===== src/Accounts/OneTime/Tests.antt =====
-- The store of states and codes at concrete inputs.
use fxtun_dev.Base.{◌+◌, ◌≤◌, ◌≡◌, refl, some, List, [], ◌∷◌, arith, is_some}
use fxtun_dev.Base.Bytes.{bytes_eq, codes}
use fxtun_dev.Base.Dict.{lookup, insert, delete}
use fxtun_dev.Base.Sweeping.{sweep}
use fxtun_dev.Base.Histories.{run, total}
use fxtun_dev.Accounts.OneTime.{new_oauth_store, create_code, exchange_code, code_ttl, cleanup}
use fxtun_dev.Accounts.OneTime.Once.{
  Op, creates_code, exchanges_code, consumes_state, cleans_up, step, one_if, hands_out, makes,
  hands_out_le, exchange_code-create_code,
}

abbrev two_exchanges : List Op
two_exchanges =
    creates_code 5 (some (codes "c")) (codes "a") (codes "r") 900
    ∷ cleans_up 8
    ∷ exchanges_code 9 (codes "c")
    ∷ exchanges_code 9 (codes "c")
    ∷ []

-- The second exchange gets nothing.
one_out : total step (hands_out (codes "c")) two_exchanges new_oauth_store ≡ 1
unfolding total step create_code exchange_code new_oauth_store lookup cleanup code_ttl sweep insert
    delete
one_out = refl

once_out :
    total step (hands_out (codes "c")) two_exchanges new_oauth_store
    ≤ one_if (is_some (lookup (codes "c") new_oauth_store.codes))
      + total step (makes (codes "c")) two_exchanges new_oauth_store
once_out = hands_out_le (codes "c") two_exchanges new_oauth_store

in_time :
    (exchange_code 100000000005 (codes "c") (
      run step
        (consumes_state 6 (codes "c") ∷ cleans_up 60000000000 ∷ [])
        (create_code 5 (some (codes "c")) (codes "a") (codes "r") 900 new_oauth_store).0)).1
    ≡ some (record {
      access_token = codes "a";
      refresh_token = codes "r";
      expires_in = 900;
      created_at = 5;
    })
unfolding code_ttl
in_time =
    exchange_code-create_code (codes "c") (codes "a") (codes "r") 900 5 100000000005
      (consumes_state 6 (codes "c") ∷ cleans_up 60000000000 ∷ []) new_oauth_store (tt, (refl, tt))
      (omega arith)
