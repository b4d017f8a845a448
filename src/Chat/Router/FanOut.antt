-- ===== src/Chat/Router/FanOut.antt =====
-- A message to a room: src/chat/message_router.cpp, the loop over the members.
use chat_system_cpp_chat_ser.Base.{
  ℕ, ◌≡◌, refl, sym, inl, inr, true, not, ◌&&◌, List, [], ◌∷◌, ◌++◌, map, append_assoc, append-nil,
  arith, if◌then◌else◌, Bool-cases, nat_beq, nat_beq_iff, nat_eq, is_empty, flatten, Bytes,
  bytes_eq,
}
use chat_system_cpp_chat_ser.Base.Map.{find-insert}
use chat_system_cpp_chat_ser.Db.Store.{Store, enqueue_undelivered}
use chat_system_cpp_chat_ser.Chat.Presence.{Presence, connections_of}
use chat_system_cpp_chat_ser.Chat.Router.{send_all, fan_out}
use chat_system_cpp_chat_ser.Chat.Router.Delivery.{queue}
use chat_system_cpp_chat_ser.Protocol.Messages.{JsonLib}

queue-enqueue :
    (mid uid u : ℕ) (s : Store)
    → queue u (enqueue_undelivered mid uid s)
      ≡ (if nat_beq uid u then queue u s ++ mid ∷ [] else queue u s)
unfolding enqueue_undelivered
queue-enqueue mid uid u s =
    ground (arith, nat_beq_iff uid u, find-insert uid u (queue uid s ++ mid ∷ []) s.undelivered)

send_all_empty :
    (conns : List ℕ) (event : Bytes) → is_empty conns ≡ true → send_all conns event ≡ []
unfolding send_all
send_all_empty [] event h = refl
send_all_empty (c ∷ conns) event h = cc

module _ (J : JsonLib) (id sender : ℕ) (event : Bytes) (p : Presence) where
  -- How often the loop queues the message for a user: once for each occurrence among the members
  -- of a user without a connection who is not the sender.
  abbrev pub queued : ℕ → List ℕ → List ℕ
  queued u [] = []
  queued u (m ∷ members) =
      let rest = queued u members in
      if nat_beq m u && is_empty (connections_of u p) && not (nat_beq u sender)
      then id ∷ rest
      else rest

  -- The loop over the members of a room sends the message to every connection of every member, the
  -- sender's included, in the members' order; and it queues the message, behind what is queued
  -- already, for the members without a connection other than the sender, and for nobody else.
  pub fan_out_lem :
      (members : List ℕ) (s : Store)
      → ((fan_out J id sender event p members s).1
          ≡ flatten (map (λ uid. send_all (connections_of uid p) event) members))
        × ((u : ℕ)
            → queue u (fan_out J id sender event p members s).0 ≡ queue u s ++ queued u members)
  unfolding fan_out
  fan_out_lem [] s = (refl, λ u. sym (append-nil (queue u s)))
  fan_out_lem (m ∷ members) s = elim (Bool-cases (is_empty (connections_of m p))) [
    | inl away ↦ elim (Bool-cases (nat_beq m sender)) [
      | inl own ↦
          let rest = fan_out_lem members s in
          (
            ground (arith, rest.0, send_all_empty (connections_of m p) event away),
            λ u. ground (arith, rest.1 u),
          )
      | inr other ↦
          let rest = fan_out_lem members (enqueue_undelivered id m s) in
          (
            ground (arith, rest.0, send_all_empty (connections_of m p) event away),
            λ u. ground (
              arith,
              rest.1 u,
              queue-enqueue id m u s,
              append_assoc (queue u s) (id ∷ []) (queued u members),
              nat_beq_iff m u,
            ),
          )
    ]
    | inr there ↦
        let rest = fan_out_lem members s in
        (ground (arith, rest.0), λ u. ground (arith, rest.1 u, nat_beq_iff m u))
  ]
