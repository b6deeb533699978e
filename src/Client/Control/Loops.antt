-- ===== src/Client/Control/Loops.antt =====
-- How many reconnect loops run.
use fxtun_dev.Base.{
  ℕ, ◌≤◌, ◌≡◌, refl, ◌⊎◌, inl, inr, Bool, true, false, not, List, [], ◌∷◌, arith, eqb, nat_eq, All,
}
use fxtun_dev.Base.Bytes.{bytes_eq}
use fxtun_dev.Base.Branches.{if_P, if_cases_P, option_P}
use fxtun_dev.Base.Dict.{lookup}
use fxtun_dev.Client.Control.{
  TunnelCreated, tunnel_created, tunnel_error, tunnel_closed, ping, pong, server_shutdown,
  server_error, unparsed, Control, new_control, handle_disconnect, handle_tunnel_created,
  handle_message, read_on, Event, receives, loses_connection, timer_fires, loop_round,
  loop_connects, loop_gives_up, happen, happen_all, reconnect_later, clear_tunnels, loop_connected,
  loop_closed,
}

-- At most one loop runs, the flag is set while it does, and no reconnect is delayed.
abbrev pub OneLoop : Control → Type 0
OneLoop st = (st.loops ≤ 1) × ((st.loops ≡ 0) ⊎ (st.reconnecting ≡ true)) × (st.timers ≡ 0)

-- An event that is not the shutdown of the server.
abbrev pub NoShutdown : Event → Type 0
NoShutdown (receives now (tunnel_created r)) = Unit {0}
NoShutdown (receives now (tunnel_error id)) = Unit {0}
NoShutdown (receives now (tunnel_closed id)) = Unit {0}
NoShutdown (receives now ping) = Unit {0}
NoShutdown (receives now pong) = Unit {0}
NoShutdown (receives now server_shutdown) = ⊥
NoShutdown (receives now (server_error fatal)) = Unit {0}
NoShutdown (receives now unparsed) = Unit {0}
NoShutdown loses_connection = Unit {0}
NoShutdown timer_fires = Unit {0}
NoShutdown loop_round = Unit {0}
NoShutdown loop_connects = Unit {0}
NoShutdown loop_gives_up = Unit {0}

handle_tunnel_created-OneLoop :
    (r : TunnelCreated) (st : Control) → OneLoop st → OneLoop (handle_tunnel_created r st)
unfolding handle_tunnel_created
handle_tunnel_created-OneLoop r st one =
    option_P OneLoop (lookup r.request_id st.pending) _ _ one
      λ answer l. option_P OneLoop answer _ _ one λ other e. one

handle_disconnect-OneLoop :
    (enabled : Bool) (st : Control) → OneLoop st → OneLoop (handle_disconnect enabled st)
unfolding handle_disconnect
handle_disconnect-OneLoop enabled st (few, flag, none_left) =
    if_cases_P OneLoop st.reconnecting _ _ (λ h. (few, flag, none_left))
      λ h.
        if_P OneLoop (not enabled) _ _ (few, inr refl, none_left)
          (ground arith, inr refl, none_left)

happen-OneLoop :
    (enabled : Bool) (x : Event) (st : Control)
    → NoShutdown x
    → OneLoop st
    → OneLoop (happen enabled x st)
unfolding happen read_on handle_message reconnect_later clear_tunnels loop_connected loop_closed
happen-OneLoop enabled (receives now (tunnel_created r)) st h one =
    if_P OneLoop st.stuck _ _ one (handle_tunnel_created-OneLoop r st one)
happen-OneLoop enabled (receives now (tunnel_error id)) st h one = if_P OneLoop st.stuck _ _ one one
happen-OneLoop enabled (receives now (tunnel_closed id)) st h one =
    if_P OneLoop st.stuck _ _ one one
happen-OneLoop enabled (receives now ping) st h one = if_P OneLoop st.stuck _ _ one one
happen-OneLoop enabled (receives now pong) st h one = if_P OneLoop st.stuck _ _ one one
happen-OneLoop enabled (receives now server_shutdown) st h one = elim h [ ]
happen-OneLoop enabled (receives now (server_error fatal)) st h one =
    if_P OneLoop st.stuck _ _ one (if_P OneLoop fatal _ _ one one)
happen-OneLoop enabled (receives now unparsed) st h one = if_P OneLoop st.stuck _ _ one one
happen-OneLoop enabled loses_connection st h one = handle_disconnect-OneLoop enabled st one
happen-OneLoop enabled timer_fires st h (few, flag, left) =
    if_cases_P OneLoop (eqb st.timers 0) _ _ (λ e. (few, flag, left)) (λ e. absurd (ground arith))
happen-OneLoop enabled loop_round st h one = if_P OneLoop (eqb st.loops 0) _ _ one one
happen-OneLoop enabled loop_connects st h (few, flag, left) =
    if_P OneLoop (eqb st.loops 0) _ _ (few, flag, left)
      (omega (arith, few), inl (omega (arith, few)), left)
happen-OneLoop enabled loop_gives_up st h (few, flag, left) =
    if_P OneLoop (eqb st.loops 0) _ _ (few, flag, left)
      (omega (arith, few), inl (omega (arith, few)), left)

happen_all-OneLoop :
    (enabled : Bool) (xs : List Event) (st : Control)
    → All NoShutdown xs
    → OneLoop st
    → OneLoop (happen_all enabled xs st)
unfolding happen_all
happen_all-OneLoop enabled [] st hs one = one
happen_all-OneLoop enabled (x ∷ xs) st (h, hs) one =
    happen_all-OneLoop enabled xs (happen enabled x st) hs (happen-OneLoop enabled x st h one)

-- As long as the server announces no shutdown, at most one reconnect loop runs.
pub happen_all-new_control :
    (enabled : Bool) (xs : List Event)
    → All NoShutdown xs
    → (happen_all enabled xs new_control).loops ≤ 1
unfolding new_control
happen_all-new_control enabled xs hs =
    (happen_all-OneLoop enabled xs new_control hs (omega arith, inl refl, refl)).0

-- A shutdown that the server announces while a loop is connecting starts a second loop five seconds later,
-- if the first one is then still at it.
pub happen_all_second :
    (now : ℕ) (st : Control)
    → st.loops ≡ 1
    → st.stuck ≡ false
    → (happen_all true (receives now server_shutdown ∷ timer_fires ∷ []) st).loops ≡ 2
unfolding happen_all happen read_on handle_message handle_disconnect reconnect_later
happen_all_second now st one free = ground arith
