-- ===== src/Chat/Presence/Laws.antt =====
-- What `Presence` promises: a user is online exactly while a connection is bound.
use chat_system_cpp_chat_ser.Base.{
  ℕ, ◌≡◌, refl, ap, inl, inr, true, false, not, ◌&&◌, ◌||◌, some, List, [], ◌∷◌, arith,
  Option-cases, nat_beq, nat_eq, is_empty, bytes_eq,
}
use chat_system_cpp_chat_ser.Base.Map
use chat_system_cpp_chat_ser.Base.Map.{Map, find-insert, find-erase}
use chat_system_cpp_chat_ser.Base.NatSet
use chat_system_cpp_chat_ser.Base.NatSet.{contains-insert, contains-erase}
use chat_system_cpp_chat_ser.Chat.Presence.{
  Presence, nobody, slot_or_empty, bind, unbind, connections_of, is_online,
}

-- No user has an empty slot.
pub record IsValid (p : Presence) : Type 0 where
  pub slots : (uid : ℕ) (slot : List ℕ) → Map.find uid p.map ≡ some slot → is_empty slot ≡ false

pub nobody-IsValid : IsValid nobody
unfolding Map.find
nobody-IsValid = record { slots = λ uid slot h. cc }

is_empty-insert : (c : ℕ) (slot : List ℕ) → is_empty (NatSet.insert c slot) ≡ false
unfolding NatSet.insert
is_empty-insert c [] = refl
is_empty-insert c (x ∷ slot) = ground arith

contains-nil : (d : ℕ) → NatSet.contains [] d ≡ false
unfolding NatSet.contains
contains-nil d = refl

contains_of_empty : (s : List ℕ) (d : ℕ) → is_empty s ≡ true → NatSet.contains s d ≡ false
contains_of_empty [] d h = contains-nil d
contains_of_empty (x ∷ s) d h = cc

module _ (uid c : ℕ) (p : Presence) where
  -- Binding and unbinding a connection keep the invariant.
  pub bind-IsValid : IsValid p → IsValid (bind uid c p).0
  unfolding bind
  bind-IsValid v = record {
    slots = λ u slot h. ground (
      arith,
      find-insert uid u (NatSet.insert c (slot_or_empty (Map.find uid p.map))) p.map,
      v.slots u slot,
      is_empty-insert c (slot_or_empty (Map.find uid p.map)),
    );
  }

  pub unbind-IsValid : IsValid p → IsValid (unbind uid c p).0
  unfolding unbind
  unbind-IsValid v = record {
    slots = λ u s h. elim (Option-cases (Map.find uid p.map)) [
      | inl e ↦ ground (arith, v.slots u s)
      | inr (slot, e) ↦ ground (
        arith,
        find-insert uid u (NatSet.erase c slot) p.map,
        find-erase uid u p.map,
        v.slots u s,
      )
    ];
  }

  -- In a valid state a user is online exactly if a connection is bound to them.
  pub is_online-connections_of :
      (u : ℕ) → IsValid p → is_online u p ≡ not (is_empty (connections_of u p))
  unfolding is_online connections_of
  is_online-connections_of u v = elim (Option-cases (Map.find u p.map)) [
    | inl e ↦ ground arith
    | inr (slot, e) ↦ ground (arith, v.slots u slot e)
  ]

  -- In a valid state: after a bind the connection is among those of its user, who is online; the connections of
  -- everybody else, and the user's other ones, are as they were. The result is true exactly if
  -- the user had been offline.
  pub bind_lem :
      IsValid p
      → ((u d : ℕ)
          → NatSet.contains (connections_of u (bind uid c p).0) d
            ≡ ((nat_beq uid u && nat_beq c d) || NatSet.contains (connections_of u p) d))
        × ((bind uid c p).1 ≡ not (is_online uid p))
        × (is_online uid (bind uid c p).0 ≡ true)
  unfolding bind is_online connections_of
  bind_lem v = (
    λ u d. ground (
      arith,
      find-insert uid u (NatSet.insert c (slot_or_empty (Map.find uid p.map))) p.map,
      contains-insert c d (slot_or_empty (Map.find uid p.map)),
      ap (λ t. Map.find t p.map) {x = uid} {y = u},
    ),
    elim (Option-cases (Map.find uid p.map)) [
      | inl e ↦ ground arith
      | inr (slot, e) ↦ ground (arith, v.slots uid slot e)
    ],
    ground
        (arith, find-insert uid uid (NatSet.insert c (slot_or_empty (Map.find uid p.map))) p.map),
  )

  -- In a valid state: after an unbind the connection is not among those of the user any more; all others are as
  -- they were. The result is true exactly if the user was online before and is not after.
  pub unbind_lem :
      IsValid p
      → ((u d : ℕ)
          → NatSet.contains (connections_of u (unbind uid c p).0) d
            ≡ (not (nat_beq uid u && nat_beq c d) && NatSet.contains (connections_of u p) d))
        × ((unbind uid c p).1 ≡ (is_online uid p && not (is_online uid (unbind uid c p).0)))
  unfolding unbind is_online connections_of
  unbind_lem v = (
    λ u d. elim (Option-cases (Map.find uid p.map)) [
      | inl e ↦ ground (arith, contains-nil d, ap (λ t. Map.find t p.map) {x = uid} {y = u})
      | inr (slot, e) ↦ ground (
        arith,
        find-insert uid u (NatSet.erase c slot) p.map,
        find-erase uid u p.map,
        contains-erase c d slot,
        contains_of_empty (NatSet.erase c slot) d,
        contains-nil d,
        ap (λ t. Map.find t p.map) {x = uid} {y = u},
      )
    ],
    elim (Option-cases (Map.find uid p.map)) [
      | inl e ↦ ground arith
      | inr (slot, e) ↦
          ground (arith, find-insert uid uid (NatSet.erase c slot) p.map, find-erase uid uid p.map)
    ],
  )
