-- ===== src/Db/Store/Queue.antt =====
-- The offline queue of the in-memory store.
use chat_system_cpp_chat_ser.Base.{
  ℕ, ◌≡◌, refl, List, [], ◌∷◌, ◌++◌, arith, if◌then◌else◌, nat_beq, nat_beq_iff, nat_eq, bytes_eq,
}
use chat_system_cpp_chat_ser.Base.Map
use chat_system_cpp_chat_ser.Base.Map.{find-insert, find-erase}
use chat_system_cpp_chat_ser.Db.Store.{
  Store, Message, enqueue_undelivered, drain_undelivered, find_messages, members_or_empty,
}

pub drain-queue :
    (uid : ℕ) (s : Store)
    → (drain_undelivered uid s).1
      ≡ find_messages (members_or_empty (Map.find uid s.undelivered)) s.messages
unfolding drain_undelivered
drain-queue uid s = ground arith

pub find_messages-append :
    (xs ys : List ℕ) (ms : List Message)
    → find_messages (xs ++ ys) ms ≡ find_messages xs ms ++ find_messages ys ms
unfolding find_messages
find_messages-append [] ys ms = refl
find_messages-append (x ∷ xs) ys ms = ground (arith, find_messages-append xs ys ms)

-- What a user is due after a message has been queued: for the user that it was queued for, what
-- was due before and then the message, if the store has one with that id; for others, the same.
pub drain-enqueue :
    (mid uid u : ℕ) (s : Store)
    → (drain_undelivered u (enqueue_undelivered mid uid s)).1 ≡ (
        if nat_beq uid u
        then (drain_undelivered u s).1 ++ find_messages (mid ∷ []) s.messages
        else (drain_undelivered u s).1)
unfolding enqueue_undelivered
drain-enqueue mid uid u s =
    let old = members_or_empty (Map.find uid s.undelivered) in
    ground (
      arith,
      drain-queue u (enqueue_undelivered mid uid s),
      drain-queue u s,
      find-insert uid u (old ++ mid ∷ []) s.undelivered,
      find_messages-append old (mid ∷ []) s.messages,
      nat_beq_iff uid u,
    )

queue-drain :
    (uid u : ℕ) (s : Store)
    → members_or_empty (Map.find u (drain_undelivered uid s).0.undelivered)
      ≡ (if nat_beq uid u then [] else members_or_empty (Map.find u s.undelivered))
unfolding drain_undelivered
queue-drain uid u s = ground (arith, find-erase uid u s.undelivered, nat_beq_iff uid u)

messages-drain : (uid : ℕ) (s : Store) → (drain_undelivered uid s).0.messages ≡ s.messages
unfolding drain_undelivered
messages-drain uid s = ground arith

find_messages-nil : (ms : List Message) → find_messages [] ms ≡ []
unfolding find_messages
find_messages-nil ms = refl

-- After a drain the user is due nothing, and others what they were due before.
pub drain-drain :
    (uid u : ℕ) (s : Store)
    → (drain_undelivered u (drain_undelivered uid s).0).1
      ≡ (if nat_beq uid u then [] else (drain_undelivered u s).1)
drain-drain uid u s = ground (
  arith,
  drain-queue u (drain_undelivered uid s).0,
  drain-queue u s,
  queue-drain uid u s,
  find_messages-nil s.messages,
  messages-drain uid s,
)
