-- ===== src/Db/Mysql/Injection.antt =====
-- No string that a user supplies changes the statement that it stands in.
use chat_system_cpp_chat_ser.Base.{ℕ, ◌≡◌, refl, List, [], ◌∷◌, nat_eq, Bytes, bytes_eq}
use chat_system_cpp_chat_ser.Db.Mysql.{Part, text, number, string, render}
use chat_system_cpp_chat_ser.Db.Mysql.Literals.{
  outside, skeleton, run, IsEscaped, Alike, Alike-append, Alike-quoted, Alike-digits, Alike-text,
}
use chat_system_cpp_chat_ser.Db.Mysql.Accounts.{
  sql_user_by_name, sql_create_user, sql_insert_session, sql_delete_session,
}
use chat_system_cpp_chat_ser.Db.Mysql.Rooms.{sql_room_by_name, sql_create_room}
use chat_system_cpp_chat_ser.Db.Mysql.Messages.{sql_insert_dm, sql_insert_room_msg}

-- The statements that a string of a user stands in.
pub data Statement : Type 0 where
  finds_user : Bytes → Statement
  creates_user : Bytes → Bytes → Statement
  inserts_session : Bytes → ℕ → ℕ → Statement
  deletes_session : Bytes → Statement
  finds_room : Bytes → Statement
  creates_room : Bytes → Statement
  inserts_dm : ℕ → ℕ → Bytes → ℕ → Statement
  inserts_room_msg : ℕ → ℕ → Bytes → ℕ → Statement

unfoldable pub parts : Statement → List Part
parts (finds_user name) = sql_user_by_name name
parts (creates_user name hash) = sql_create_user name hash
parts (inserts_session token uid ts) = sql_insert_session token uid ts
parts (deletes_session token) = sql_delete_session token
parts (finds_room name) = sql_room_by_name name
parts (creates_room name) = sql_create_room name
parts (inserts_dm a b content ts) = sql_insert_dm a b content ts
parts (inserts_room_msg a r content ts) = sql_insert_room_msg a r content ts

-- The text of the program itself holds no quote.
abbrev IsPlain : List Part → Type 0
IsPlain [] = Unit {0}
IsPlain (text s ∷ ps) = (run outside s ≡ outside) × IsPlain ps
IsPlain (_ ∷ ps) = IsPlain ps

module _ (escape : Bytes → Bytes) (safe : (s : Bytes) → IsEscaped (escape s)) where
  render-Alike : (ps : List Part) → IsPlain ps → Alike (render escape ps) (render (λ s. []) ps)
  unfolding render run
  render-Alike [] h = Alike-text [] refl
  render-Alike (text s ∷ ps) h = Alike-append (Alike-text s h.0) (render-Alike ps h.1)
  render-Alike (number n ∷ ps) h = Alike-append (Alike-digits n) (render-Alike ps h)
  render-Alike (string s ∷ ps) h =
      Alike-append (Alike-quoted (escape s) [] (safe s) tt) (render-Alike ps h)

  parts-IsPlain : (t : Statement) → IsPlain (parts t)
  unfolding parts run sql_user_by_name sql_create_user sql_insert_session sql_delete_session
      sql_room_by_name sql_create_room sql_insert_dm sql_insert_room_msg
  parts-IsPlain (finds_user name) = (refl, (refl, (refl, tt)))
  parts-IsPlain (creates_user name hash) = (refl, (refl, (refl, tt)))
  parts-IsPlain (inserts_session token uid ts) = (refl, (refl, (refl, (refl, (refl, tt)))))
  parts-IsPlain (deletes_session token) = (refl, tt)
  parts-IsPlain (finds_room name) = (refl, (refl, (refl, tt)))
  parts-IsPlain (creates_room name) = (refl, (refl, tt))
  parts-IsPlain (inserts_dm a b content ts) = (refl, (refl, (refl, (refl, (refl, (refl, tt))))))
  parts-IsPlain (inserts_room_msg a r content ts) =
      (refl, (refl, (refl, (refl, (refl, (refl, tt))))))

  -- Where the client library puts every quote and every backslash of a string behind a backslash:
  -- each statement that a string of a user stands in reads, outside its string literals, as it
  -- would with empty strings, and it leaves no literal open.
  pub render-skeleton :
      (t : Statement)
      → (skeleton outside (render escape (parts t)) ≡ skeleton outside (render (λ s. []) (parts t)))
        × (run outside (render escape (parts t)) ≡ outside)
  render-skeleton t = let a = render-Alike (parts t) (parts-IsPlain t) in (a.same, a.left)
