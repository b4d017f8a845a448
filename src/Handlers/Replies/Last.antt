-- ===== src/Handlers/Replies/Last.antt =====
-- Whom the last frame goes to that a handler sends.
use chat_system_cpp_chat_ser.Base.{
  ℕ, ◌≡◌, refl, ◌⊎◌, inl, inr, false, Option, none, some, List, [], ◌∷◌, ◌++◌, arith, Bool-cases,
  Option-cases, nat_beq, nat_eq, is_empty, Bytes, codes, bytes_eq,
}
use chat_system_cpp_chat_ser.Chat.Router.{Send}
use chat_system_cpp_chat_ser.Auth.Session.{SessionInfo, validate}
use chat_system_cpp_chat_ser.Net.Connection.{set_user_id, set_session_token}
use chat_system_cpp_chat_ser.Protocol.Messages.{JsonLib, make_error, get_str}
use chat_system_cpp_chat_ser.Handlers.World.{
  World, Settings, Outcome, finished, threw, k_unauthorized, send, refuse, bind_session,
  require_auth, authorized,
}
use chat_system_cpp_chat_ser.Handlers.Access.{bind-world}

-- The connection that the last frame goes to.
abbrev pub last_to : List Send → Option ℕ
last_to [] = none
last_to (s ∷ []) = some s.0
last_to (s ∷ t ∷ sends) = last_to (t ∷ sends)

pub last_to-snoc : (sends : List Send) (c : ℕ) (b : Bytes) → last_to (sends ++ (c, b) ∷ []) ≡ some c
last_to-snoc [] c b = refl
last_to-snoc (s ∷ []) c b = refl
last_to-snoc (s ∷ t ∷ sends) c b = last_to-snoc (t ∷ sends) c b

-- Whom an outcome answers; where it is an exception, dispatch sends the answer.
abbrev pub answers : Outcome → Option ℕ
answers (finished w) = last_to w.sent
answers (threw w) = some w.conn.id

-- No valid token is that of a user 0.
pub record HasUsers (now : ℕ) (w : World) : Type 0 where
  pub positive :
      (token : Bytes) (i : SessionInfo)
      → (validate token now w.sessions).1 ≡ some i
      → nat_beq i.user_id 0 ≡ false

module _ (J : JsonLib) where
  pub send-answers : (j : J.Value) (w : World) → last_to (send J j w).sent ≡ some w.conn.id
  unfolding send
  send-answers j w = last_to-snoc w.sent w.conn.id (J.dump j)

  pub refuse-answers :
      (id : Option ℕ) (code message : Bytes) (w : World)
      → last_to (refuse J id code message w).sent ≡ some w.conn.id
  unfolding refuse
  refuse-answers id code message w = send-answers (make_error J id code message) w

module _ (J : JsonLib) (o : Settings) (req : J.Value) (id : Option ℕ) (w : World) where
  -- Either the error has been sent, or there is a user and the connection is the same.
  require_auth-answers :
      HasUsers o.now w
      → (((require_auth J req id o.now w).1 ≡ 0)
          × (last_to (require_auth J req id o.now w).0.sent ≡ some w.conn.id))
        ⊎ ((nat_beq (require_auth J req id o.now w).1 0 ≡ false)
            × ((require_auth J req id o.now w).0.conn.id ≡ w.conn.id))
  unfolding require_auth bind_session set_session_token set_user_id
  require_auth-answers real =
      let tok = get_str J req (codes "token") [] in
      let bound : SessionInfo → World = λ i. record w {
        sessions = (validate tok o.now w.sessions).0;
        conn = set_session_token tok (set_user_id i.user_id w.conn);
      } in
      elim (Bool-cases (nat_beq w.conn.user_id 0)) [
        | inr bound ↦ inr (ground arith, ground arith)
        | inl free ↦ elim (Bool-cases (is_empty tok)) [
          | inl missing ↦ inl (
            ground arith,
            ground (arith, refuse-answers J id k_unauthorized (codes "missing session token") w),
          )
          | inr given ↦ elim (Option-cases (validate tok o.now w.sessions).1) [
            | inl unknown ↦
                let seen = record w { sessions = (validate tok o.now w.sessions).0 } in
                inl (
                  ground arith,
                  ground (
                    arith,
                    refuse-answers J id k_unauthorized (codes "invalid or expired token") seen,
                  ),
                )
            | inr (i, known) ↦ inr (
              ground (arith, real.positive tok i known),
              ground (arith, (bind-world J i.user_id o.now (bound i)).1),
            )
          ]
        ]
      ]

  pub authorized-answers :
      (body : ℕ → World → Outcome)
      → HasUsers o.now w
      → ((uid : ℕ) (w' : World) → w'.conn.id ≡ w.conn.id → answers (body uid w') ≡ some w.conn.id)
      → answers (authorized J req id o.now w body) ≡ some w.conn.id
  unfolding authorized
  authorized-answers body real rest = elim (require_auth-answers real) [
    | inl (none_found, said) ↦ ground arith
    | inr (found, same) ↦
        ground
          (arith, rest (require_auth J req id o.now w).1 (require_auth J req id o.now w).0 same)
  ]
