-- ===== src/Handlers/Replies.antt =====
-- Every payload that a connection hands over is answered.
mod Last
mod Each
pub use Last.*
use chat_system_cpp_chat_ser.Base.{
  ℕ, ◌≡◌, refl, inl, inr, Option, some, [], arith, Bool-cases, Option-cases, nat_eq, is_empty,
  Bytes, codes, bytes_eq,
}
use chat_system_cpp_chat_ser.Protocol.Messages.{JsonLib, get_str, parse}
use chat_system_cpp_chat_ser.Base.Map
use chat_system_cpp_chat_ser.Handlers.World.{
  World, Crypto, Settings, Outcome, finished, threw, send, refuse,
}
use chat_system_cpp_chat_ser.Handlers.Dispatch.{handle, dispatch, guarded, request_id, table}
use chat_system_cpp_chat_ser.Handlers.Replies.Each.{handle-answers}

module _ (J : JsonLib) (K : Crypto) (o : Settings) where
  guarded-answers :
      (id : Option ℕ) (out : Outcome) → last_to (guarded J K o id out).sent ≡ answers out
  unfolding guarded refuse send
  guarded-answers id (finished w) = refl
  guarded-answers id (threw w) = last_to-snoc w.sent w.conn.id _

  dispatch-last :
      (payload : Bytes) (w : World)
      → HasUsers o.now w
      → last_to (dispatch J K o payload w).sent ≡ some w.conn.id
  unfolding dispatch guarded
  dispatch-last payload w real = elim (Option-cases (parse J payload)) [
    | inl malformed ↦ grind (arith, last_to-snoc)
    | inr (req, e) ↦
        let id = request_id J K o req in
        elim (Bool-cases (is_empty (get_str J req (codes "type") []))) [
          | inl untyped ↦ grind (arith, last_to-snoc)
          | inr typed ↦ elim (Option-cases (Map.find (get_str J req (codes "type") []) table)) [
            | inl unknown ↦ grind (arith, last_to-snoc)
            | inr (r, found) ↦ ground (
              arith,
              guarded-answers id (handle J K o r req id w),
              handle-answers J K o req id w r real,
            )
          ]
        ]
  ]

  -- Where no valid token is that of a user 0: every payload that a connection hands over is
  -- answered. Of the frames that dispatch sends there is a last one, and it goes to that
  -- connection.
  pub dispatch-answers :
      (payload : Bytes) (w : World)
      → HasUsers o.now w
      → last_to (dispatch J K o payload (record w { sent = [] })).sent ≡ some w.conn.id
  dispatch-answers payload w real =
      dispatch-last payload (record w { sent = [] }) (record { positive = real.positive })
