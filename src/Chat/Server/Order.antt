-- ===== src/Chat/Server/Order.antt =====
-- The order of the state that all connections share.
use chat_system_cpp_chat_ser.Base.{
  ℕ, suc, ◌+◌, ◌^◌, ◌<◌, ◌≡◌, refl, sym, ap, subst, ◌∙◌, inl, inr, Bool, true, false, not, some,
  List, [], ◌∷◌, arith, Bool-cases, some_inj, nat_beq, nat_beq_iff, nat_eq, length, Bytes, bytes_eq,
}
use chat_system_cpp_chat_ser.Base.Map
use chat_system_cpp_chat_ser.Base.Map.{Map, find-insert_same, find-insert_other}
use chat_system_cpp_chat_ser.Base.NatSet
use chat_system_cpp_chat_ser.Base.NatSet.{contains-insert}
use chat_system_cpp_chat_ser.Db.Store.{empty_store, load_all_sessions}
use chat_system_cpp_chat_ser.Db.Store.Validity.{IsValid, empty_store-IsValid}
use chat_system_cpp_chat_ser.Db.Store.Counters.{Leaves, fewer_left}
use chat_system_cpp_chat_ser.Db.Store.Pending.{Queued}
use chat_system_cpp_chat_ser.Chat.Presence.{connections_of}
use chat_system_cpp_chat_ser.Chat.Presence.Laws
use chat_system_cpp_chat_ser.Chat.Presence.Laws.{nobody-IsValid}
use chat_system_cpp_chat_ser.Chat.Rooms.Coherence.{IsCoherent, new_rooms-IsCoherent}
use chat_system_cpp_chat_ser.Auth.Session.{new_manager, warm, warm_rows}
use chat_system_cpp_chat_ser.Auth.Session.Owners.{NamesUsers}
use chat_system_cpp_chat_ser.Net.Connection.{Connection, make}
use chat_system_cpp_chat_ser.Protocol.Messages.{JsonLib}
use chat_system_cpp_chat_ser.Handlers.World.{World, Crypto, Settings}
use chat_system_cpp_chat_ser.Handlers.Dispatch.{dispatch}
use chat_system_cpp_chat_ser.Handlers.Invariant.{Asker, IsOrderly, Sound}
use chat_system_cpp_chat_ser.Handlers.Invariant.Dispatch.{dispatch-Sound, on_close-IsOrderly}
use chat_system_cpp_chat_ser.Handlers.Invariant.Following.{fewer_order, branch_option}
use chat_system_cpp_chat_ser.Chat.Server.{
  System, Event, connects, hands, closes, start, seen_by, left_by, on_connect, on_frame, on_closed,
  step, run,
}

-- A connection stands under its id; an open one that has logged in is among those of its user.
pub record IsKnown (s : System) (id : ℕ) (c : Connection) : Type 0 where
  pub named : c.id ≡ id
  pub bound :
      NatSet.contains s.gone id ≡ false
      → nat_beq c.user_id 0 ≡ false
      → NatSet.contains (connections_of c.user_id s.presence) id ≡ true

-- The store, presence, the room cache and the sessions are each in order and agree, and so do the
-- connections; `k` more ids can be drawn.
pub record IsInOrder (k : ℕ) (s : System) : Type 0 where
  pub store : IsValid s.store
  pub left : Leaves k s.store
  pub queued : Queued s.store
  pub presence : Laws.IsValid s.presence
  pub rooms : IsCoherent s.store s.rooms
  pub sessions : NamesUsers s.sessions
  pub conns : (id : ℕ) (c : Connection) → Map.find id s.conns ≡ some c → IsKnown s id c

start-IsInOrder : (ttl now k : ℕ) → k + 2 < 2 ^ 64 → IsInOrder k (start ttl now)
unfolding start warm warm_rows load_all_sessions new_manager Map.find
start-IsInOrder ttl now k h = record {
  store = empty_store-IsValid;
  left = record { users = omega (arith, h); rooms = omega (arith, h); messages = omega (arith, h) };
  queued = λ uid. tt;
  presence = nobody-IsValid;
  rooms = new_rooms-IsCoherent empty_store;
  sessions = λ t i e. cc;
  conns = λ id c e. cc;
}

module _ (k : ℕ) (s : System) (v : IsInOrder k s) (id : ℕ) (c : Connection)
    (here : IsKnown s id c) where
  abbrev asker : Asker
  asker = record { id = id; is_open = not (NatSet.contains s.gone id) }

  seen-IsOrderly : IsOrderly asker s.presence k (seen_by c s)
  seen-IsOrderly = record {
    store = v.store;
    left = v.left;
    queued = v.queued;
    presence = v.presence;
    rooms = v.rooms;
    sessions = v.sessions;
    conn = here.named;
    others = λ u d h. refl;
  }

  seen-Sound : Sound asker s.presence k (seen_by c s)
  seen-Sound = (
    seen-IsOrderly,
    λ opened user.
        ap (NatSet.contains (connections_of c.user_id s.presence)) here.named
        ∙ here.bound (ground (arith, opened)) user,
  )

module _ (k : ℕ) (s : System) (id : ℕ) (w : World)
    (known : (i : ℕ) (c : Connection) → Map.find i s.conns ≡ some c → IsKnown s i c) where
  -- The other connections are as they were.
  others-IsKnown :
      (is_open : Bool) (gone : List ℕ)
      → IsOrderly (record { id = id; is_open = is_open }) s.presence k w
      → ((i : ℕ) → nat_beq id i ≡ false → NatSet.contains gone i ≡ NatSet.contains s.gone i)
      → IsKnown (record (left_by id w s) { gone = gone }) id w.conn
      → (i : ℕ) (c : Connection) → Map.find i (left_by id w s).conns ≡ some c
      → IsKnown (record (left_by id w s) { gone = gone }) i c
  others-IsKnown is_open gone g same own i c h = elim (Bool-cases (nat_beq id i)) [
    | inl e ↦
        let after = record (left_by id w s) { gone = gone } in
        let same_conn : w.conn ≡ c = some_inj (sym (find-insert_same id i w.conn s.conns e) ∙ h) in
        subst (λ j. IsKnown after j c) ((nat_beq_iff id i).0 e)
          (subst (IsKnown after id) same_conn own)
    | inr e ↦
        let old = known i c (sym (find-insert_other id i w.conn s.conns e) ∙ h) in
        record {
          named = old.named;
          bound = λ opened user. g.others c.user_id i e ∙ old.bound (sym (same i e) ∙ opened) user;
        }
  ]

  -- The shared state is as the handler left it.
  left-IsInOrder :
      (is_open : Bool) (gone : List ℕ)
      → IsOrderly (record { id = id; is_open = is_open }) s.presence k w
      → ((i : ℕ) → nat_beq id i ≡ false → NatSet.contains gone i ≡ NatSet.contains s.gone i)
      → IsKnown (record (left_by id w s) { gone = gone }) id w.conn
      → IsInOrder k (record (left_by id w s) { gone = gone })
  left-IsInOrder is_open gone g same own = record {
    store = g.store;
    left = g.left;
    queued = g.queued;
    presence = g.presence;
    rooms = g.rooms;
    sessions = g.sessions;
    conns = others-IsKnown is_open gone g same own;
  }

fewer_events : (k : ℕ) (s : System) → IsInOrder (suc k) s → IsInOrder k s
fewer_events k s v = record {
  store = v.store;
  left = fewer_left k s.store v.left;
  queued = v.queued;
  presence = v.presence;
  rooms = v.rooms;
  sessions = v.sessions;
  conns = v.conns;
}

module _ (J : JsonLib) (k : ℕ) (s : System) (v : IsInOrder (suc k) s) where
  on_connect-IsInOrder : (max_frame : ℕ) → IsInOrder k (on_connect J max_frame s)
  unfolding on_connect make
  on_connect-IsInOrder max_frame = record {
    store = v.store;
    left = fewer_left k s.store v.left;
    queued = v.queued;
    presence = v.presence;
    rooms = v.rooms;
    sessions = v.sessions;
    conns = λ id c h. elim (Bool-cases (nat_beq s.next_conn id)) [
      | inl e ↦
          let new : make s.next_conn max_frame ≡ c =
            some_inj (sym (find-insert_same s.next_conn id _ s.conns e) ∙ h) in
          let at = (nat_beq_iff s.next_conn id).0 e in
          subst (IsKnown (on_connect J max_frame s) id) new
            (record { named = at; bound = λ opened user. cc })
      | inr e ↦
          let old = v.conns id c (sym (find-insert_other s.next_conn id _ s.conns e) ∙ h) in
          record { named = old.named; bound = old.bound }
    ];
  }

  on_frame-IsInOrder :
      (id : ℕ) (payload : Bytes) (K : Crypto) (o : Settings)
      → IsInOrder k (on_frame J id payload K o s)
  unfolding on_frame
  on_frame-IsInOrder id payload K o =
      branch_option (IsInOrder k) (Map.find id s.conns) (λ e. fewer_events k s v)
        (λ c e.
          let here = v.conns id c e in
          let g = dispatch-Sound J K o payload (seen-Sound (suc k) s v id c here) in
          left-IsInOrder k s id _ v.conns _ s.gone g.0 (λ i h. refl)
            (record {
              named = g.0.conn;
              bound = λ opened user.
                  let w = dispatch J K o payload (seen_by c s) in
                  ap (NatSet.contains (connections_of w.conn.user_id w.presence)) (sym g.0.conn)
                  ∙ g.1 (ground (arith, opened)) user;
            }))

  on_closed-IsInOrder : (id now : ℕ) → IsInOrder k (on_closed J id now s)
  unfolding on_closed
  on_closed-IsInOrder id now =
      branch_option (IsInOrder k) (Map.find id s.conns) (λ e. fewer_events k s v)
        (λ c e.
          let g = fewer_order (
            on_close-IsOrderly J {w = seen_by c s} now
              (seen-IsOrderly (suc k) s v id c (v.conns id c e))) in
          left-IsInOrder k s id _ v.conns _ (NatSet.insert id s.gone) g
            (λ i h. contains-insert id i s.gone ∙ ground (arith, h))
            (record {
              named = g.conn;
              bound = λ opened user. ground (arith, opened, contains-insert id id s.gone);
            }))

module _ (J : JsonLib) where
  step-IsInOrder : (e : Event) (k : ℕ) (s : System) → IsInOrder (suc k) s → IsInOrder k (step J e s)
  unfolding step
  step-IsInOrder (connects max_frame) k s v = on_connect-IsInOrder J k s v max_frame
  step-IsInOrder (hands id payload K o) k s v = on_frame-IsInOrder J k s v id payload K o
  step-IsInOrder (closes id now) k s v = on_closed-IsInOrder J k s v id now

  pub step_run-IsInOrder :
      (es : List Event) (k : ℕ) (s : System)
      → IsInOrder (length es + k) s
      → IsInOrder k (run J es s)
  unfolding run
  step_run-IsInOrder [] k s v = subst (λ m. IsInOrder m s) (omega arith) v
  step_run-IsInOrder (e ∷ es) k s v =
      step_run-IsInOrder es k (step J e s)
        (step-IsInOrder e (length es + k) s (subst (λ m. IsInOrder m s) (omega arith) v))

  -- Connections are made, payloads of them are handled and they close, each before the next: the
  -- shared state stays in order as long as there are fewer than 2^64 - 2 events. Where handlers
  -- overlap, the cache of rooms may differ from the store (Chat/Rooms/Race).
  pub run-IsInOrder :
      (es : List Event) (ttl now : ℕ)
      → length es + 2 < 2 ^ 64
      → IsInOrder 0 (run J es (start ttl now))
  run-IsInOrder es ttl now h = step_run-IsInOrder es 0 (start ttl now) (
      subst (λ k. IsInOrder k (start ttl now)) (omega arith)
        (start-IsInOrder ttl now (length es) h))
