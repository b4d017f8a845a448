-- ===== src/Chat/Presence.antt =====
-- src/chat/presence.cpp and include/chat/presence.h. A connection is its id; the transition
-- handler, which runs after the lock is released, is called by the caller of the model where the
-- result is true.
pub mod Laws
use chat_system_cpp_chat_ser.Base.{
  ℕ, Bool, true, false, Option, none, some, List, [], if◌then◌else◌, nat_eq, is_empty, bytes_eq,
}
use chat_system_cpp_chat_ser.Base.Map
use chat_system_cpp_chat_ser.Base.Map.{Map}
use chat_system_cpp_chat_ser.Base.NatSet

pub record Presence : Type 0 where
  pub map : Map ℕ (List ℕ)

abbrev pub nobody : Presence
nobody = record { map = [] }

abbrev pub slot_or_empty : Option (List ℕ) → List ℕ
slot_or_empty none = []
slot_or_empty (some slot) = slot

unfoldable pub bind : ℕ → ℕ → Presence → Presence × Bool
bind uid c p =
    let slot = slot_or_empty (Map.find uid p.map) in
    (record { map = Map.insert uid (NatSet.insert c slot) p.map }, is_empty slot)

unfoldable pub unbind : ℕ → ℕ → Presence → Presence × Bool
unbind uid c p = elim (Map.find uid p.map) [
  | none ↦ (p, false)
  | some slot ↦
      if is_empty (NatSet.erase c slot)
      then (record { map = Map.erase uid p.map }, true)
      else (record { map = Map.insert uid (NatSet.erase c slot) p.map }, false)
]

unfoldable pub connections_of : ℕ → Presence → List ℕ
connections_of uid p = slot_or_empty (Map.find uid p.map)

unfoldable pub is_online : ℕ → Presence → Bool
is_online uid p = elim (Map.find uid p.map) [ none ↦ false | some slot ↦ true ]
