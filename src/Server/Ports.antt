-- ===== src/Server/Ports.antt =====
-- internal/server/port_allocator.go, and AllocatePort and ReleasePort of tcp_manager.go and
-- udp_manager.go. The range is of natural numbers; a request may be negative.
pub mod Laws
pub mod Holders
use fxtun_dev.Base.{
  ℕ, zero, suc, ◌+◌, ◌-◌, ◌*◌, ◌/◌, ◌%◌, ◌^◌, ◌≤◌, ◌<◌, ◌≡◌, refl, sym, ap, ◌∙◌, ◌≢◌, ◌↔◌, ◌⊎◌, inl,
  inr, Bool, true, false, not, ◌&&◌, ◌||◌, Option, none, some, List, [], ◌∷◌, ◌++◌, map, arith, ltb,
  leb, eqb, if◌then◌else◌, ltb→lt, lt→ltb, leb→le, eqb_iff, Bool-cases, Option-cases, is_some, Eq,
  nat_eq, ◌==◌, length, get_elem?, set, take, drop, replicate, All, length-append, length-take,
  length-drop,
}
use fxtun_dev.Base.Int.{ℤ, pos, negsuc}
use fxtun_dev.Base.Dict.{Dict, lookup, insert, delete}

-- config.PortRange.
pub record PortRange : Type 0 where
  pub min : ℕ
  pub max : ℕ

pub record PortAllocator : Type 0 where
  pub port_range : PortRange
  pub used_ports : Dict ℕ Bool

unfoldable pub new_port_allocator : PortRange → PortAllocator
new_port_allocator r = record { port_range = r; used_ports = [] }

pub data PortError : Type 0 where
  outside_range in_use no_available bind_failed : PortError

pub data Result {ℓ} (A : Type ℓ) : Type ℓ where
  ok : A → Result A
  err : PortError → Result A

-- A missing entry of the map reads as false.
abbrev or_false : Option Bool → Bool
or_false none = false
or_false (some b) = b

-- `a.usedPorts[port]`.
unfoldable pub is_used : PortAllocator → ℕ → Bool
is_used a port = or_false (lookup port a.used_ports)

pub mark : PortAllocator → ℕ → PortAllocator
mark a port = record a { used_ports = insert port true a.used_ports }

-- The loop of the automatic assignment, with the rounds that are left.
scan : ℕ → ℕ → PortAllocator → Option ℕ
scan zero port a = none
scan (suc n) port a = elim (is_used a port) [ true ↦ scan n (suc port) a | false ↦ some port ]

auto_assign : PortAllocator → PortAllocator × Result ℕ
unfolding mark
auto_assign a = elim (scan (a.port_range.max + 1 - a.port_range.min) a.port_range.min a) [
  | none ↦ (a, err no_available)
  | some port ↦ (mark a port, ok port)
]

explicit : ℕ → PortAllocator → PortAllocator × Result ℕ
unfolding mark is_used
explicit requested a =
    if ltb requested a.port_range.min || ltb a.port_range.max requested
    then (a, err outside_range)
    else if is_used a requested
    then (a, err in_use)
    else (mark a requested, ok requested)

unfoldable pub allocate : ℤ → PortAllocator → PortAllocator × Result ℕ
unfolding auto_assign explicit scan is_used
allocate (pos zero) a = auto_assign a
allocate (pos (suc n)) a = explicit (suc n) a
allocate (negsuc n) a = (a, err outside_range)

unfoldable pub release : ℕ → PortAllocator → PortAllocator
release port a = record a { used_ports = delete port a.used_ports }

-- `AllocatePort`: `bind` tells whether the system lets the port be listened on.
bind_port : (ℕ → Bool) → PortAllocator → Result ℕ → PortAllocator × Result ℕ
unfolding release
bind_port bind a (err e) = (a, err e)
bind_port bind a (ok port) = if bind port then (a, ok port) else (release port a, err bind_failed)

unfoldable pub allocate_port : (ℕ → Bool) → ℤ → PortAllocator → PortAllocator × Result ℕ
unfolding bind_port
allocate_port bind requested a = let (a', r) = allocate requested a in bind_port bind a' r
