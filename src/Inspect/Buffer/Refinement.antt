-- ===== src/Inspect/Buffer/Refinement.antt =====
-- The ring refines a bounded list, newest first.
use mathlib.Core.Path.{subst}
use fxtun_dev.Base.{
  ℕ, zero, suc, ◌+◌, ◌-◌, ◌%◌, ◌≤◌, ◌<◌, ◌≡◌, refl, sym, ap, ◌∙◌, inl, inr, true, false, Option,
  none, some, List, [], ◌∷◌, ◌++◌, map, arith, ltb, leb, eqb, if◌then◌else◌, ltb→lt, lt→ltb, leb→le,
  eqb_iff, Bool-cases, nat_eq, ◌==◌, length, get_elem?, set, take, drop, length-take, length-drop,
}
use mathlib.Core.Option.{none-ne-some}
use mathlib.Core.List.{reverse, reverse-cons, append_assoc, append-nil}
use fxtun_dev.Base.{length-set, length-replicate}
use fxtun_dev.Base.Bytes.{Bytes, bytes_eq, bytes_beq}
use fxtun_dev.Inspect.Buffer.{
  RingBuffer, new_ring_buffer, add_locked, slot, list_loop, list, get_loop, get, clear_all, clear,
}
use fxtun_dev.Inspect.Buffer.Index.{back, list_index, get_index, next_index}

-- The slots after a write, seen from the new write position.
moved_zero : (w n : ℕ) → w < n → back ((w + 1) % n) n 0 ≡ w
moved_zero w n hw = rw (next_index w n hw) (ground arith)

moved_suc : (w n i : ℕ) → w < n → suc i < n → back ((w + 1) % n) n (suc i) ≡ back w n i
moved_suc w n i hw hi = rw (next_index w n hw) (ground arith)

-- None of the older slots is the one that is written.
apart : (w n i : ℕ) → w < n → suc i < n → eqb w (back w n i) ≡ false
apart w n i hw hi = ground arith

module _ {ℓ} {A : Type ℓ} where
  -- The ring holds xs, newest first.
  pub record Holds (rb : RingBuffer A) (xs : List A) : Type ℓ where
    pub positive : 0 < rb.capacity
    pub slots : length rb.entries ≡ rb.capacity
    pub writing : rb.write_idx < rb.capacity
    pub counted : rb.count ≡ length xs
    pub bounded : length xs ≤ rb.capacity
    pub stored :
        (i : ℕ) → i < length xs → slot rb.entries (back rb.write_idx rb.capacity i) ≡ get_elem? xs i

  slot-set :
      (os : List (Option A)) (i j : ℕ) (v : Option A)
      → i < length os
      → slot (set os i v) j ≡ (if eqb i j then v else slot os j)
  slot-set [] i j v h = elim h [ ]
  slot-set (o ∷ os) zero zero v h = refl
  slot-set (o ∷ os) zero (suc j) v h = ground arith
  slot-set (o ∷ os) (suc i) zero v h = ground arith
  slot-set (o ∷ os) (suc i) (suc j) v h = ground (arith, slot-set os i j v)

  get_elem?-take : (n : ℕ) (xs : List A) (i : ℕ) → i < n → get_elem? (take n xs) i ≡ get_elem? xs i
  get_elem?-take zero xs i h = elim h [ ]
  get_elem?-take (suc n) [] i h = refl
  get_elem?-take (suc n) (x ∷ xs) zero h = refl
  get_elem?-take (suc n) (x ∷ xs) (suc i) h = get_elem?-take n xs i (omega arith)

  -- A new ring of positive capacity is empty.
  pub new-Holds : (n : ℕ) → 0 < n → Holds (new_ring_buffer n) []
  unfolding new_ring_buffer
  new-Holds n h = record {
    positive = h;
    slots = length-replicate n none;
    writing = h;
    counted = refl;
    bounded = omega arith;
    stored = λ i k. absurd (omega arith);
  }

  -- The new entry stands first, and the oldest one is dropped when the ring is full.
  added : A → RingBuffer A → RingBuffer A
  added ex rb = record rb {
    entries = set rb.entries rb.write_idx (some ex);
    write_idx = (rb.write_idx + 1) % rb.capacity;
    count = if ltb rb.count rb.capacity then rb.count + 1 else rb.count;
  }

  stored-added :
      (ex : A) (rb : RingBuffer A) (xs : List A) (h : Holds rb xs) (i : ℕ)
      → i < length (take rb.capacity (ex ∷ xs))
      → slot
          (set rb.entries rb.write_idx (some ex))
          (back ((rb.write_idx + 1) % rb.capacity) rb.capacity i)
        ≡ get_elem? (take rb.capacity (ex ∷ xs)) i
  stored-added ex rb xs h zero l =
      rw
        (
          moved_zero rb.write_idx rb.capacity h.writing,
          slot-set rb.entries rb.write_idx rb.write_idx (some ex)
              (omega (arith, h.slots, h.writing)),
          (eqb_iff rb.write_idx rb.write_idx).1 refl,
        )
        (sym (get_elem?-take rb.capacity (ex ∷ xs) 0 h.positive))
  stored-added ex rb xs h (suc i) l =
      let room : suc i < rb.capacity = omega (arith, length-take rb.capacity (ex ∷ xs)) in
      rw
        (
          moved_suc rb.write_idx rb.capacity i h.writing room,
          slot-set rb.entries rb.write_idx (back rb.write_idx rb.capacity i) (some ex)
              (omega (arith, h.slots, h.writing)),
          apart rb.write_idx rb.capacity i h.writing room,
        )
        (h.stored i (omega (arith, length-take rb.capacity (ex ∷ xs)))
          ∙ sym (get_elem?-take rb.capacity (ex ∷ xs) (suc i) room))

  pub add_locked-Holds :
      (ex : A) (rb : RingBuffer A) (xs : List A)
      → Holds rb xs
      → (rb' : RingBuffer A) × (add_locked ex rb ≡ some (rb', rb.subscribers))
        × Holds rb' (take rb.capacity (ex ∷ xs))
        × (rb'.capacity ≡ rb.capacity)
  unfolding add_locked added
  add_locked-Holds ex rb xs h = (
    added ex rb,
    rw (lt→ltb rb.write_idx (length rb.entries) (omega (arith, h.slots, h.writing))) refl,
    record {
      positive = h.positive;
      slots = length-set rb.entries rb.write_idx (some ex) ∙ h.slots;
      writing = omega (arith, h.positive);
      counted = ground (arith, length-take rb.capacity (ex ∷ xs), h.counted, h.bounded);
      bounded = omega (arith, length-take rb.capacity (ex ∷ xs));
      stored = stored-added ex rb xs h;
    },
    refl,
  )

  drop_get :
      (k : ℕ) (xs : List A) (x : A) → get_elem? xs k ≡ some x → drop k xs ≡ x ∷ drop (suc k) xs
  drop_get k [] x e = absurd (none-ne-some x e)
  drop_get zero (y ∷ xs) x e = ap (λ (z : A). z ∷ xs) (cc)
  drop_get (suc k) (y ∷ xs) x e = drop_get k xs x e

  get_elem?-some : (xs : List A) (k : ℕ) → k < length xs → (x : A) × (get_elem? xs k ≡ some x)
  get_elem?-some [] k h = elim h [ ]
  get_elem?-some (x ∷ xs) zero h = (x, refl)
  get_elem?-some (x ∷ xs) (suc k) h = get_elem?-some xs k (omega arith)

  list_loop_lem :
      (rb : RingBuffer A) (xs : List A) (off n i : ℕ)
      → Holds rb xs
      → off + i + n ≤ length xs
      → list_loop rb off n i ≡ map some (take n (drop (off + i) xs))
  unfolding list_loop
  list_loop_lem rb xs off zero i h l = refl
  list_loop_lem rb xs off (suc n) i h l =
      let (x, e) = get_elem?-some xs (off + i) (omega arith) in
      rw
        (
          drop_get (off + i) xs x e,
          list_index rb.write_idx rb.capacity off i h.writing (omega (arith, h.bounded)),
          h.stored (off + i) (omega arith),
          e,
        )
        (ap (◌∷◌ (some x)) (
          list_loop_lem rb xs off n (suc i) h (omega arith)
          ∙ ap (λ (k : ℕ). map some (take n (drop k xs))) {y = suc (off + i)} (omega arith)))

  drop_all : (k : ℕ) (xs : List A) → length xs ≤ k → drop k xs ≡ []
  drop_all zero [] h = refl
  drop_all zero (x ∷ xs) h = elim h [ ]
  drop_all (suc k) [] h = refl
  drop_all (suc k) (x ∷ xs) h = drop_all k xs (omega arith)

  take_nil : (k : ℕ) → ◌≡◌ {A = List A} (take k []) []
  take_nil zero = refl
  take_nil (suc k) = refl

  take_all : (k : ℕ) (xs : List A) → length xs ≤ k → take k xs ≡ xs
  take_all zero [] h = refl
  take_all zero (x ∷ xs) h = elim h [ ]
  take_all (suc k) [] h = refl
  take_all (suc k) (x ∷ xs) h = ap (◌∷◌ x) (take_all k xs (omega arith))

  -- `List` returns the page of the newest-first list that starts behind offset entries, with limit
  -- entries or as many as there are; none of them is nil.
  pub list-Holds :
      (rb : RingBuffer A) (xs : List A) (offset limit : ℕ)
      → Holds rb xs
      → list offset limit rb ≡ map some (take limit (drop offset xs))
  unfolding list
  list-Holds rb xs offset limit h = elim (Bool-cases (leb rb.count offset)) [
    | inl past ↦ rw past (
        rw (drop_all offset xs (omega (arith, h.counted, leb→le _ _ past)))
          (ap (map some) (sym (take_nil limit))))
    | inr inside ↦ rw inside (elim (Bool-cases (ltb (rb.count - offset) limit)) [
      | inl long ↦ rw long (
          list_loop_lem rb xs offset (rb.count - offset) 0 h (ground (arith, h.counted, inside))
          ∙ ap (map some) (
              ap (λ (k : ℕ). take (rb.count - offset) (drop k xs)) (omega arith)
              ∙ take_all (rb.count - offset) (drop offset xs)
                  (omega (arith, length-drop offset xs, h.counted))
              ∙ sym (
                  take_all limit (drop offset xs)
                    (omega (arith, length-drop offset xs, h.counted, ltb→lt _ _ long)))))
      | inr short ↦ rw short (
          list_loop_lem rb xs offset limit 0 h (ground (arith, h.counted, inside, short))
          ∙ ap (λ (k : ℕ). map some (take limit (drop k xs))) (omega arith))
    ])
  ]

  -- The first entry with the identifier.
  abbrev pub find : (A → Bytes) → Bytes → List A → Option A
  find id_of id [] = none
  find id_of id (x ∷ xs) = if id_of x == id then some x else find id_of id xs

  get_loop_round :
      (id_of : A → Bytes) (id : Bytes) (rb : RingBuffer A) (n i : ℕ) (x : A)
      → slot rb.entries ((rb.write_idx + rb.capacity - 1 - i) % rb.capacity) ≡ some x
      → get_loop id_of id rb (suc n) i
        ≡ (elim (id_of x == id) [ true ↦ some (some x) | false ↦ get_loop id_of id rb n (suc i) ])
  unfolding get_loop
  get_loop_round id_of id rb n i x e = rw (e, get_loop) refl

  get_loop_lem :
      (id_of : A → Bytes) (id : Bytes) (rb : RingBuffer A) (xs : List A) (n i : ℕ)
      → Holds rb xs
      → i + n ≡ length xs
      → get_loop id_of id rb n i ≡ some (find id_of id (drop i xs))
  unfolding get_loop
  get_loop_lem id_of id rb xs zero i h l = rw (drop_all i xs (omega arith)) refl
  get_loop_lem id_of id rb xs (suc n) i h l =
      let (x, e) = get_elem?-some xs i (omega arith) in
      get_loop_round id_of id rb n i x (
        rw (get_index rb.write_idx rb.capacity i h.writing (omega (arith, h.bounded)))
          (h.stored i (omega arith) ∙ e))
      ∙ rw (drop_get i xs x e) (elim (Bool-cases (bytes_beq (id_of x) id)) [
        | inl hit ↦ rw hit refl
        | inr miss ↦ rw miss (get_loop_lem id_of id rb xs n (suc i) h (omega arith))
      ])

  -- `Get` returns the newest entry with the identifier, or nil if no entry has it; it never meets an
  -- empty slot.
  pub get-Holds :
      (id_of : A → Bytes) (id : Bytes) (rb : RingBuffer A) (xs : List A)
      → Holds rb xs
      → get id_of id rb ≡ some (find id_of id xs)
  unfolding get
  get-Holds id_of id rb xs h = get_loop_lem id_of id rb xs rb.count 0 h (omega (arith, h.counted))

  length-clear_all : (os : List (Option A)) → length (clear_all os) ≡ length os
  unfolding clear_all
  length-clear_all [] = refl
  length-clear_all (o ∷ os) = ap suc (length-clear_all os)

  pub clear-Holds : (rb : RingBuffer A) (xs : List A) → Holds rb xs → Holds (clear rb) []
  unfolding clear
  clear-Holds rb xs h = record {
    positive = h.positive;
    slots = length-clear_all rb.entries ∙ h.slots;
    writing = h.positive;
    counted = refl;
    bounded = omega arith;
    stored = λ i k. absurd (omega arith);
  }

  -- Exchanges captured one after the other, oldest first; `none` if one of them panics.
  abbrev pub add_all : List A → RingBuffer A → Option (RingBuffer A)
  add_all [] rb = some rb
  add_all (ex ∷ exs) rb = elim (add_locked ex rb) [
    | none ↦ none
    | some (rb', subs) ↦ add_all exs rb'
  ]

  take-append-take :
      (n m : ℕ) (xs ys : List A) → n ≤ m → take n (xs ++ take m ys) ≡ take n (xs ++ ys)
  take-append-take zero m xs ys h = refl
  take-append-take (suc n) zero xs ys h = elim h [ ]
  take-append-take (suc n) (suc m) [] [] h = refl
  take-append-take (suc n) (suc m) [] (y ∷ ys) h =
      ap (◌∷◌ y) (take-append-take n m [] ys (omega arith))
  take-append-take (suc n) (suc m) (x ∷ xs) ys h =
      ap (◌∷◌ x) (take-append-take n (suc m) xs ys (omega arith))

  -- One capture after the other, as pages of the whole history.
  page :
      (n : ℕ) (ex : A) (exs xs : List A)
      → take n (reverse exs ++ take n (ex ∷ xs)) ≡ take n (reverse (ex ∷ exs) ++ xs)
  page n ex exs xs =
      rw (reverse-cons ex exs, append_assoc (reverse exs) (ex ∷ []) xs)
        (take-append-take n n (reverse exs) (ex ∷ xs) (omega arith))

  add_all_from :
      (exs xs : List A) (rb : RingBuffer A)
      → Holds rb xs
      → (rb' : RingBuffer A) × (add_all exs rb ≡ some rb')
        × Holds rb' (take rb.capacity (reverse exs ++ xs))
  add_all_from [] xs rb h = (rb, refl, rw (take_all rb.capacity xs h.bounded) h)
  add_all_from (ex ∷ exs) xs rb h =
      let (rb1, e, h1, c) = add_locked-Holds ex rb xs h in
      let (rb2, e2, h2) = add_all_from exs (take rb.capacity (ex ∷ xs)) rb1 h1 in
      (rb2, rw (e, add_all) e2, subst (Holds rb2) (rw c (page rb.capacity ex exs xs)) h2)

  -- After any captures, a ring of positive capacity holds the newest of them, newest first, as many
  -- as fit; no capture panics.
  pub add_all-Holds :
      (exs : List A) (n : ℕ)
      → 0 < n
      → (rb : RingBuffer A) × (add_all exs (new_ring_buffer n) ≡ some rb)
        × Holds rb (take n (reverse exs))
  unfolding new_ring_buffer
  add_all-Holds exs n h =
      rw (← append-nil (reverse exs)) (add_all_from exs [] (new_ring_buffer n) (new-Holds n h))
