-- ===== src/Db/Store/Pending.antt =====
-- The offline queues of the in-memory store, and the ids in them.
use chat_system_cpp_chat_ser.Base.{
  ℕ, ◌≤◌, ◌<◌, ◌≡◌, refl, inl, inr, List, [], ◌∷◌, ◌++◌, arith, Bool-cases, Option-cases, nat_beq,
  nat_eq, All, All-append, bytes_eq,
}
use chat_system_cpp_chat_ser.Base.Map
use chat_system_cpp_chat_ser.Base.Map.{find-insert, find-erase}
use chat_system_cpp_chat_ser.Db.Store.{
  Store, members_or_empty, create_user, update_last_seen, create_room, join_room, leave_room,
  insert_dm, insert_room_msg, update_message_status, enqueue_undelivered, drain_undelivered,
  insert_session, delete_session,
}
use chat_system_cpp_chat_ser.Db.Store.Validity.{
  HasRoom, Call, creates_user, updates_last_seen, inserts_session, deletes_session, creates_room,
  joins_room, leaves_room, inserts_dm, inserts_room_msg, updates_status, enqueues, drains, call,
  next_id_small,
}

abbrev pub Queued : Store → Type 0
Queued s = (uid : ℕ) → All (λ i. i < s.next_msg_id) (members_or_empty (Map.find uid s.undelivered))

-- What is queued is the id of a message.
abbrev pub Known : Call → Store → Type 0
Known (enqueues mid uid) s = mid < s.next_msg_id
Known _ s = Unit

All-below : (n m : ℕ) (xs : List ℕ) → n ≤ m → All (λ i. i < n) xs → All (λ i. i < m) xs
All-below n m [] h a = tt
All-below n m (x ∷ xs) h a = (omega (arith, h, a.0), All-below n m xs h a.1)

grown :
    (c : Call) (s : Store)
    → (call c s).undelivered ≡ s.undelivered
    → s.next_msg_id ≤ (call c s).next_msg_id
    → Queued s
    → Queued (call c s)
grown c s e h q uid = rw e (All-below s.next_msg_id (call c s).next_msg_id _ h (q uid))

drain-Queued : (uid : ℕ) (s : Store) → Queued s → Queued (drain_undelivered uid s).0
unfolding drain_undelivered
drain-Queued uid s q = elim (Option-cases (Map.find uid s.undelivered)) [
  | inl nobody ↦ rw (drain_undelivered, nobody) q
  | inr (ids, due) ↦
      rw (drain_undelivered, due)
        (λ u. elim (Bool-cases (nat_beq uid u)) [
          | inl e ↦ rw (find-erase uid u s.undelivered, e) tt
          | inr e ↦ rw (find-erase uid u s.undelivered, e) (q u)
        ])
]

enqueue-Queued :
    (mid uid : ℕ) (s : Store)
    → mid < s.next_msg_id
    → Queued s
    → Queued (enqueue_undelivered mid uid s)
unfolding enqueue_undelivered
enqueue-Queued mid uid s h q u =
    let old = members_or_empty (Map.find uid s.undelivered) in
    elim (Bool-cases (nat_beq uid u)) [
      | inl e ↦
          rw (find-insert uid u (old ++ mid ∷ []) s.undelivered, e)
            (All-append (λ i. i < s.next_msg_id) old (mid ∷ []) (q uid) (h, tt))
      | inr e ↦ rw (find-insert uid u (old ++ mid ∷ []) s.undelivered, e) (q u)
    ]

pub call-Queued : (c : Call) (s : Store) → HasRoom s → Known c s → Queued s → Queued (call c s)
unfolding call create_user create_room insert_dm insert_room_msg update_last_seen insert_session
    delete_session join_room leave_room update_message_status
call-Queued (creates_user name hash now) s big k q =
    grown (creates_user name hash now) s (ground arith) (ground arith) q
call-Queued (creates_room name now) s big k q =
    grown (creates_room name now) s (ground arith) (ground arith) q
call-Queued (updates_last_seen id ts) s big k q =
    grown (updates_last_seen id ts) s (ground arith) (ground arith) q
call-Queued (joins_room r u) s big k q = grown (joins_room r u) s (ground arith) (ground arith) q
call-Queued (leaves_room r u) s big k q = grown (leaves_room r u) s (ground arith) (ground arith) q
call-Queued (inserts_session token uid ts) s big k q = q
call-Queued (deletes_session token) s big k q = q
call-Queued (updates_status id st) s big k q = q
call-Queued (inserts_dm a b content ts) s big k q =
    grown (inserts_dm a b content ts) s refl
      (omega (arith, next_id_small s.next_msg_id big.msg_ids)) q
call-Queued (inserts_room_msg a r content ts) s big k q =
    grown (inserts_room_msg a r content ts) s refl
      (omega (arith, next_id_small s.next_msg_id big.msg_ids)) q
call-Queued (enqueues mid uid) s big k q = enqueue-Queued mid uid s k q
call-Queued (drains uid) s big k q = drain-Queued uid s q
