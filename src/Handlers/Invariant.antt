-- ===== src/Handlers/Invariant.antt =====
-- What stays true of the state that the handlers share, whatever they are asked.
pub mod Bindings
pub mod Following
pub mod Accounts
pub mod Rooms
pub mod Conversation
pub mod Dispatch
use chat_system_cpp_chat_ser.Base.{ℕ, suc, ◌≡◌, ◌∙◌, Bool, true, false, nat_beq, nat_eq, bytes_eq}
use chat_system_cpp_chat_ser.Base.Map
use chat_system_cpp_chat_ser.Base.NatSet
use chat_system_cpp_chat_ser.Db.Store
use chat_system_cpp_chat_ser.Db.Store.{Store}
use chat_system_cpp_chat_ser.Db.Store.Validity.{IsValid, Call, call, call-IsValid}
use chat_system_cpp_chat_ser.Db.Store.Counters.{
  Leaves, HasRoom-Leaves, draws_none, keeps_members, call-Leaves_none, call-Leaves,
  call-room_members,
}
use chat_system_cpp_chat_ser.Db.Store.Pending.{Queued, Known, call-Queued}
use chat_system_cpp_chat_ser.Chat.Presence.{Presence, connections_of}
use chat_system_cpp_chat_ser.Chat.Presence
use chat_system_cpp_chat_ser.Chat.Presence.Laws
use chat_system_cpp_chat_ser.Chat.Rooms.{RoomManager}
use chat_system_cpp_chat_ser.Chat.Rooms.Coherence.{IsCoherent}
use chat_system_cpp_chat_ser.Auth.Session.{SessionManager}
use chat_system_cpp_chat_ser.Auth.Session.Owners.{NamesUsers}
use chat_system_cpp_chat_ser.Handlers.World.{World}

-- The connection that asks, and whether it is still open: a job of the pool may come after the close.
pub record Asker : Type 0 where
  pub id : ℕ
  pub is_open : Bool

-- The parts of the state are each in order, and agree with one another. `c` is the connection that
-- asks; the bindings of all others are as they are in `p`.
pub record IsOrderly (c : Asker) (p : Presence) (k : ℕ) (w : World) : Type 0 where
  pub store : IsValid w.store
  pub left : Leaves k w.store
  pub queued : Queued w.store
  pub presence : Laws.IsValid w.presence
  pub rooms : IsCoherent w.store w.rooms
  pub sessions : NamesUsers w.sessions
  pub conn : w.conn.id ≡ c.id
  pub others :
      (u d : ℕ)
      → nat_beq c.id d ≡ false
      → NatSet.contains (connections_of u w.presence) d ≡ NatSet.contains (connections_of u p) d

-- An open connection that has logged in is among those of its user.
abbrev pub IsBound : Bool → World → Type 0
IsBound is_open w =
    is_open ≡ true
    → nat_beq w.conn.user_id 0 ≡ false
    → NatSet.contains (connections_of w.conn.user_id w.presence) w.conn.id ≡ true

abbrev pub Sound : Asker → Presence → ℕ → World → Type 0
Sound c p k w = IsOrderly c p k w × IsBound c.is_open w

IsCoherent-members :
    (s t : Store) (m : RoomManager)
    → t.room_members ≡ s.room_members
    → IsCoherent s m
    → IsCoherent t m
unfolding Store.is_member
IsCoherent-members s t m e v = record { agrees = λ r u h. rw e (v.agrees r u h) }

module _ {c : Asker} {p : Presence} where
  -- What is sent and which user is on the connection is not the invariant's concern.
  pub aside_of :
      {k : ℕ} {w : World} (w' : World)
      → w'.store ≡ w.store
      → w'.sessions ≡ w.sessions
      → w'.presence ≡ w.presence
      → w'.rooms ≡ w.rooms
      → w'.conn.id ≡ w.conn.id
      → IsOrderly c p k w
      → IsOrderly c p k w'
  aside_of w' a b d e f g = record {
    store = rw a g.store;
    left = rw a g.left;
    queued = rw a g.queued;
    presence = rw d g.presence;
    rooms = rw (a, e) g.rooms;
    sessions = rw b g.sessions;
    conn = f ∙ g.conn;
    others = rw d g.others;
  }

  -- A call of the store that draws no id and is not about members.
  pub call-IsOrderly :
      {k : ℕ} {w : World} (x : Call)
      → draws_none x ≡ true
      → keeps_members x ≡ true
      → Known x w.store
      → IsOrderly c p k w
      → IsOrderly c p k (record w { store = call x w.store })
  call-IsOrderly {k} {w} x d e known g = record {
    store = call-IsValid x w.store (HasRoom-Leaves k w.store g.left) g.store;
    left = call-Leaves_none x k w.store d g.left;
    queued = call-Queued x w.store (HasRoom-Leaves k w.store g.left) known g.queued;
    presence = g.presence;
    rooms =
        IsCoherent-members w.store (call x w.store) w.rooms (call-room_members x w.store e) g.rooms;
    sessions = g.sessions;
    conn = g.conn;
    others = g.others;
  }

  -- One that draws an id.
  pub drawn-IsOrderly :
      {k : ℕ} {w : World} (x : Call)
      → keeps_members x ≡ true
      → Known x w.store
      → IsOrderly c p (suc k) w
      → IsOrderly c p k (record w { store = call x w.store })
  drawn-IsOrderly {k} {w} x e known g = record {
    store = call-IsValid x w.store (HasRoom-Leaves (suc k) w.store g.left) g.store;
    left = call-Leaves x k w.store g.left;
    queued = call-Queued x w.store (HasRoom-Leaves (suc k) w.store g.left) known g.queued;
    presence = g.presence;
    rooms =
        IsCoherent-members w.store (call x w.store) w.rooms (call-room_members x w.store e) g.rooms;
    sessions = g.sessions;
    conn = g.conn;
    others = g.others;
  }

  -- Sessions that are dropped or expire, and new ones of users.
  pub sessions-IsOrderly :
      {k : ℕ} {w : World} (m : SessionManager)
      → NamesUsers m
      → IsOrderly c p k w
      → IsOrderly c p k (record w { sessions = m })
  sessions-IsOrderly m names g = record {
    store = g.store;
    left = g.left;
    queued = g.queued;
    presence = g.presence;
    rooms = g.rooms;
    sessions = names;
    conn = g.conn;
    others = g.others;
  }

  pub rooms-IsOrderly :
      {k : ℕ} {w : World} (m : RoomManager)
      → IsCoherent w.store m
      → IsOrderly c p k w
      → IsOrderly c p k (record w { rooms = m })
  rooms-IsOrderly m agree g = record {
    store = g.store;
    left = g.left;
    queued = g.queued;
    presence = g.presence;
    rooms = agree;
    sessions = g.sessions;
    conn = g.conn;
    others = g.others;
  }

  -- Calls about members go with an update of the cache.
  pub members-IsOrderly :
      {k : ℕ} {w : World} (x : Call) (m : RoomManager)
      → draws_none x ≡ true
      → Known x w.store
      → IsCoherent (call x w.store) m
      → IsOrderly c p k w
      → IsOrderly c p k (record w { store = call x w.store; rooms = m })
  members-IsOrderly {k} {w} x m d known agree g = record {
    store = call-IsValid x w.store (HasRoom-Leaves k w.store g.left) g.store;
    left = call-Leaves_none x k w.store d g.left;
    queued = call-Queued x w.store (HasRoom-Leaves k w.store g.left) known g.queued;
    presence = g.presence;
    rooms = agree;
    sessions = g.sessions;
    conn = g.conn;
    others = g.others;
  }
