-- ===== src/Db/Store/Found.antt =====
-- Messages that are found by their ids.
use chat_system_cpp_chat_ser.Base.{
  ℕ, suc, ◌≤◌, ◌<◌, ◌≡◌, refl, ap, ◌≢◌, inl, inr, some, List, [], ◌∷◌, ◌++◌, arith, Bool-cases,
  nat_beq, nat_eq, All, bytes_eq,
}
use chat_system_cpp_chat_ser.Db.Store.{Message, set_status, find_message, find_messages}
use chat_system_cpp_chat_ser.Db.Store.Validity.{Ascends}

pub find_message_last :
    (lo hi : ℕ) (ms : List Message) (m : Message)
    → Ascends lo ms hi
    → m.id ≡ hi
    → find_message hi (ms ++ m ∷ []) ≡ some m
unfolding find_message
find_message_last lo hi [] m h e = ground arith
find_message_last lo hi (x ∷ ms) m h e =
    ground (arith, find_message_last (suc x.id) hi ms m h.1 e, ascends_below (suc x.id) hi ms h.1)
  where
    ascends_below : (lo hi : ℕ) (ms : List Message) → Ascends lo ms hi → lo ≤ hi
    ascends_below lo hi [] h = h
    ascends_below lo hi (y ∷ ms) h = omega (arith, h.0, ascends_below (suc y.id) hi ms h.1)

pub find_message_other :
    (id : ℕ) (ms : List Message) (m : Message)
    → m.id ≢ id
    → find_message id (ms ++ m ∷ []) ≡ find_message id ms
unfolding find_message
find_message_other id [] m h = ground arith
find_message_other id (x ∷ ms) m h = ground (arith, find_message_other id ms m h)

pub find_messages_older :
    (ids : List ℕ) (ms : List Message) (m : Message)
    → All (λ i. i < m.id) ids
    → find_messages ids (ms ++ m ∷ []) ≡ find_messages ids ms
unfolding find_messages
find_messages_older [] ms m h = refl
find_messages_older (i ∷ ids) ms m h = ground (
  arith,
  find_message_other i ms m (λ e. omega (arith, e, h.0)),
  find_messages_older ids ms m h.1,
)

pub find_messages_one :
    (id : ℕ) (ms : List Message) (m : Message)
    → find_message id ms ≡ some m
    → find_messages (id ∷ []) ms ≡ m ∷ []
unfolding find_messages
find_messages_one id ms m e = rw (e, find_messages)

pub find_message-set_status :
    (id : ℕ) (st : ℕ) (ms : List Message) (m : Message)
    → find_message id ms ≡ some m
    → find_message id (set_status id st ms) ≡ some (record m { status = st })
unfolding find_message set_status
find_message-set_status id st [] m h = cc
find_message-set_status id st (x ∷ ms) m h = elim (Bool-cases (nat_beq x.id id)) [
  | inl e ↦ ground (arith, ap (λ (y : Message). record y { status = st }) {x = x} {y = m})
  | inr e ↦ ground (arith, find_message-set_status id st ms m)
]
