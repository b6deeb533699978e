-- ===== src/Protocol/Io.antt =====
-- io.Writer as the package uses it: one call of Write may be cut short by an error.
use fxtun_dev.Base.{
  ℕ, ◌-◌, ◌≤◌, ◌≡◌, Bool, true, false, ◌++◌, arith, leb, if◌then◌else◌, length, take,
}
use fxtun_dev.Base.Bytes.{Bytes}

-- What has gone out, and how many bytes more the connection takes before it fails.
pub record Writer : Type 0 where
  pub sent : Bytes
  pub room : ℕ

-- The writer afterwards, and whether the whole buffer went out.
unfoldable pub write : Bytes → Writer → Writer × Bool
write buf w =
    if leb (length buf) w.room
    then (record w { sent = w.sent ++ buf; room = w.room - length buf }, true)
    else (record w { sent = w.sent ++ take w.room buf; room = 0 }, false)

-- A successful write appends the buffer.
pub write_done : (buf : Bytes) (w w' : Writer) → write buf w ≡ (w', true) → w'.sent ≡ w.sent ++ buf
unfolding write
write_done buf w w' e = ground arith

-- It succeeds where the connection takes the whole buffer.
pub write_fits :
    (buf : Bytes) (w : Writer)
    → length buf ≤ w.room
    → write buf w ≡ (record { sent = w.sent ++ buf; room = w.room - length buf }, true)
unfolding write
write_fits buf w h = ground arith
