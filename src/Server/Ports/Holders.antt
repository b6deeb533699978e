-- ===== src/Server/Ports/Holders.antt =====
-- The allocator over a history of calls: the ports that are out, and that no two calls hold one.
use fxtun_dev.Base.{
  ℕ, ◌≡◌, refl, inl, inr, Bool, true, false, List, [], ◌∷◌, arith, eqb, Bool-cases, nat_eq,
}
use fxtun_dev.Base.Int.{ℤ}
use fxtun_dev.Base.Dict.{lookup}
use fxtun_dev.Base.Sets.{contains, without, Distinct, contains-without, without-Distinct}
use fxtun_dev.Server.Ports.{
  PortRange, PortAllocator, new_port_allocator, Result, ok, err, is_used, mark, allocate, release,
  bind_port, allocate_port,
}
use fxtun_dev.Server.Ports.Laws.{InRange, is_used-mark, is_used-release, allocate_ok, allocate_err}

pub data Call : Type 0 where
  allocates : (ℕ → Bool) → ℤ → Call
  releases : ℕ → Call

abbrev hand_out : Result ℕ → List ℕ → List ℕ
hand_out (ok p) held = p ∷ held
hand_out (err e) held = held

-- The allocator beside the ports that calls of `AllocatePort` returned and no call has released.
unfoldable pub step : PortAllocator × List ℕ → Call → PortAllocator × List ℕ
step (a, held) (allocates bind r) =
    let (a', res) = allocate_port bind r a in (a', hand_out res held)
step (a, held) (releases p) = (release p a, without p held)

abbrev pub run : PortAllocator × List ℕ → List Call → PortAllocator × List ℕ
run s [] = s
run s (c ∷ cs) = run (step s c) cs

pub record Inv (s : PortAllocator × List ℕ) : Type 0 where
  pub distinct : Distinct s.1
  pub in_range : (p : ℕ) → contains s.1 p ≡ true → InRange s.0 p
  pub agree : (p : ℕ) → is_used s.0 p ≡ contains s.1 p

new-Inv : (r : PortRange) → Inv (new_port_allocator r, [])
unfolding new_port_allocator is_used lookup
new-Inv r = record { distinct = tt; in_range = λ p h. cc; agree = λ p. refl }

port_range-mark : (a : PortAllocator) (p : ℕ) → (mark a p).port_range ≡ a.port_range
unfolding mark
port_range-mark a p = refl

port_range-release : (a : PortAllocator) (p : ℕ) → (release p a).port_range ≡ a.port_range
unfolding release
port_range-release a p = refl

releases-Inv :
    (a : PortAllocator) (held : List ℕ) (p : ℕ) → Inv (a, held) → Inv (step (a, held) (releases p))
unfolding step
releases-Inv a held p v = record {
  distinct = without-Distinct p held v.distinct;
  in_range =
      λ q h. rw (port_range-release a p) (v.in_range q (ground (arith, contains-without p q held)));
  agree = λ q. ground (arith, is_used-release a p q, contains-without p q held, v.agree q);
}

grants-Inv :
    (a : PortAllocator) (held : List ℕ) (p : ℕ)
    → InRange a p
    → is_used a p ≡ false
    → Inv (a, held)
    → Inv (mark a p, p ∷ held)
grants-Inv a held p i f v = record {
  distinct = (ground (arith, v.agree p), v.distinct);
  in_range = λ q h. rw (port_range-mark a p) (elim (Bool-cases (eqb p q)) [
    | inl same ↦ ground (arith, same)
    | inr other ↦ v.in_range q (ground (arith, other))
  ]);
  agree = λ q. ground (arith, is_used-mark a p q, v.agree q);
}

-- A port that could not be bound is given back.
unbound-Inv :
    (a : PortAllocator) (held : List ℕ) (p : ℕ)
    → is_used a p ≡ false
    → Inv (a, held)
    → Inv (release p (mark a p), held)
unbound-Inv a held p f v = record {
  distinct = v.distinct;
  in_range = λ q h. rw (port_range-release (mark a p) p, port_range-mark a p) (v.in_range q h);
  agree =
      λ q. ground (arith, is_used-release (mark a p) p q, is_used-mark a p q, v.agree q, v.agree p);
}

-- After the allocator, the bind.
bound-Inv :
    (bind : ℕ → Bool) (r : ℤ) (a : PortAllocator) (held : List ℕ) (out : PortAllocator × Result ℕ)
    → allocate r a ≡ out
    → Inv (a, held)
    → Inv ((bind_port bind out.0 out.1).0, hand_out (bind_port bind out.0 out.1).1 held)
unfolding bind_port
bound-Inv bind r a held (a', err x) e v = rw (allocate_err r a a' x e) v
bound-Inv bind r a held (a', ok p) e v =
    let (m, i, f, _) = allocate_ok r a a' p e in
    rw m (elim (Bool-cases (bind p)) [
      | inl bound ↦ rw bound (grants-Inv a held p i f v)
      | inr failed ↦ rw failed (unbound-Inv a held p f v)
    ])

allocates-Inv :
    (bind : ℕ → Bool) (r : ℤ) (a : PortAllocator) (held : List ℕ)
    → Inv (a, held)
    → Inv (step (a, held) (allocates bind r))
unfolding step allocate_port
allocates-Inv bind r a held v = bound-Inv bind r a held (allocate r a) refl v

pub step-Inv : (s : PortAllocator × List ℕ) (c : Call) → Inv s → Inv (step s c)
step-Inv (a, held) (allocates bind r) v = allocates-Inv bind r a held v
step-Inv (a, held) (releases p) v = releases-Inv a held p v

run-Inv : (s : PortAllocator × List ℕ) (cs : List Call) → Inv s → Inv (run s cs)
run-Inv s [] v = v
run-Inv s (c ∷ cs) v = run-Inv (step s c) cs (step-Inv s c v)

-- After any history of `AllocatePort` and `ReleasePort` on a new allocator, whatever the system
-- lets be bound: the ports that are out are distinct and lie in the range, and the allocator's table
-- marks those ports and no others.
pub run-new-Inv : (r : PortRange) (cs : List Call) → Inv (run (new_port_allocator r, []) cs)
run-new-Inv r cs = run-Inv (new_port_allocator r, []) cs (new-Inv r)
