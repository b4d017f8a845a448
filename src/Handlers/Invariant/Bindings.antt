-- ===== src/Handlers/Invariant/Bindings.antt =====
-- Sends, and the changes of presence and of the user on a connection, keep the state in order.
use chat_system_cpp_chat_ser.Base.{
  ℕ, ◌≡◌, refl, sym, ap, subst, ◌∙◌, inl, inr, Bool, true, false, Option, arith, Bool-cases,
  nat_beq, nat_beq_iff, nat_eq, Bytes, bytes_eq,
}
use chat_system_cpp_chat_ser.Base.NatSet
use chat_system_cpp_chat_ser.Db.Store.Validity.{call, updates_last_seen, drains}
use chat_system_cpp_chat_ser.Chat.Presence.{Presence, connections_of}
use chat_system_cpp_chat_ser.Chat.Presence
use chat_system_cpp_chat_ser.Chat.Presence.Laws.{bind_lem, unbind_lem, bind-IsValid, unbind-IsValid}
use chat_system_cpp_chat_ser.Chat.Presence.Laws
use chat_system_cpp_chat_ser.Chat.Router.{replay_offline}
use chat_system_cpp_chat_ser.Net.Connection.{set_user_id, set_session_token}
use chat_system_cpp_chat_ser.Protocol.Messages.{JsonLib}
use chat_system_cpp_chat_ser.Handlers.World.{
  World, send, refuse, transition, bind, unbind, bind_session,
}
use chat_system_cpp_chat_ser.Handlers.Access.{bind-world}
use chat_system_cpp_chat_ser.Handlers.Invariant.{Asker, IsOrderly, Sound, aside_of, call-IsOrderly}

bind-contains :
    (J : JsonLib) (uid now : ℕ) (w : World)
    → Laws.IsValid w.presence
    → NatSet.contains (connections_of uid (bind J uid now w).presence) w.conn.id ≡ true
bind-contains J uid now w v =
    ap (λ q. NatSet.contains (connections_of uid q) w.conn.id) (bind-world J uid now w).0
    ∙ (bind_lem uid w.conn.id w.presence v).0 uid w.conn.id
    ∙ rw ((nat_beq_iff uid uid).1 refl, (nat_beq_iff w.conn.id w.conn.id).1 refl) refl

module _ {c : Asker} {p : Presence} where
  module _ (J : JsonLib) (uid now : ℕ) {k : ℕ} {w : World} where
    transition-IsOrderly :
        (came : Bool) → IsOrderly c p k w → IsOrderly c p k (transition J uid came now w)
    unfolding transition replay_offline call
    transition-IsOrderly false g = call-IsOrderly (updates_last_seen uid now) refl refl tt g
    transition-IsOrderly true g =
        aside_of _ refl refl refl refl refl (call-IsOrderly (drains uid) refl refl tt g)

    -- A change of presence that concerns the connection that asks only.
    present-IsOrderly :
        (q : Presence)
        → Laws.IsValid q
        → ((u d : ℕ)
            → nat_beq c.id d ≡ false
            → NatSet.contains (connections_of u q) d
              ≡ NatSet.contains (connections_of u w.presence) d)
        → IsOrderly c p k w
        → IsOrderly c p k (record w { presence = q })
    present-IsOrderly q v same g = record {
      store = g.store;
      left = g.left;
      queued = g.queued;
      presence = v;
      rooms = g.rooms;
      sessions = g.sessions;
      conn = g.conn;
      others = λ u d h. same u d h ∙ g.others u d h;
    }

  module _ (J : JsonLib) (uid now : ℕ) {k : ℕ} {w : World} (g : IsOrderly c p k w) where
    pub bind-IsOrderly : IsOrderly c p k (bind J uid now w)
    unfolding bind
    bind-IsOrderly =
        let (q, came) = Presence.bind uid w.conn.id w.presence in
        let here =
          present-IsOrderly J uid now q (bind-IsValid uid w.conn.id w.presence g.presence)
            (λ u d h.
              (bind_lem uid w.conn.id w.presence g.presence).0 u d ∙ rw (g.conn, h) (ground arith))
            g in
        elim (Bool-cases came) [
          | inl e ↦ rw (bind, e) (transition-IsOrderly J uid now true here)
          | inr e ↦ rw (bind, e) here
        ]

    pub unbind-IsOrderly : IsOrderly c p k (unbind J uid now w)
    unfolding unbind
    unbind-IsOrderly =
        let (q, went) = Presence.unbind uid w.conn.id w.presence in
        let here =
          present-IsOrderly J uid now q (unbind-IsValid uid w.conn.id w.presence g.presence)
            (λ u d h.
              (unbind_lem uid w.conn.id w.presence g.presence).0 u d
              ∙ rw (g.conn, h) (ground arith))
            g in
        elim (Bool-cases went) [
          | inl e ↦ rw (unbind, e) (transition-IsOrderly J uid now false here)
          | inr e ↦ rw (unbind, e) here
        ]

  module _ (J : JsonLib) {k : ℕ} {w : World} (g : Sound c p k w) where
    pub send-Sound : (j : J.Value) → Sound c p k (send J j w)
    unfolding send
    send-Sound j = (aside_of _ refl refl refl refl refl g.0, g.1)

    pub refuse-Sound :
        (id : Option ℕ) (code message : Bytes) → Sound c p k (refuse J id code message w)
    unfolding refuse
    refuse-Sound id code message = send-Sound _

  -- The user and the token of a connection that asks.
  known_as :
      {k : ℕ} {w : World} (uid : ℕ) (token : Bytes)
      → IsOrderly c p k w
      → IsOrderly c p k (record w { conn = set_session_token token (set_user_id uid w.conn) })
  unfolding set_session_token set_user_id
  known_as uid token g = aside_of _ refl refl refl refl refl g

  pub bind_session-Sound :
      (J : JsonLib) (uid : ℕ) (token : Bytes) (now : ℕ) {k : ℕ} {w : World}
      → IsOrderly c p k w
      → Sound c p k (bind_session J uid token now w)
  unfolding bind_session set_session_token set_user_id
  bind_session-Sound J uid token now {k} {w} g =
      let known = record w { conn = set_session_token token (set_user_id uid w.conn) } in
      let made = bind-world J uid now known in
      (
        bind-IsOrderly J uid now (known_as uid token g),
        λ a h.
            subst
              (λ x.
                NatSet.contains (connections_of x.user_id (bind J uid now known).presence) x.id
                ≡ true)
              (sym made.1) (bind-contains J uid now known g.presence),
      )
