-- ===== src/Handlers/Invariant/Accounts.antt =====
-- Registering, logging in and out, and asking for presence keep the state in order.
use chat_system_cpp_chat_ser.Base.{
  ℕ, suc, ◌≡◌, refl, sym, ap, ◌∙◌, ◌≢◌, inl, inr, false, ◌||◌, Option, none, some, [], arith, ltb,
  some_inj, nat_beq, nat_eq, length, is_empty, Bytes, codes, bytes_eq,
}
use chat_system_cpp_chat_ser.Db.Store.{
  Store, User, Try, returned, raised, create_user, find_user_by_username, find_user_by_id,
}
use chat_system_cpp_chat_ser.Db.Store.Validity.{
  IsValid, call, creates_user, inserts_session, deletes_session,
}
use chat_system_cpp_chat_ser.Db.Store.Accounts.{find_user_by_username_lem}
use chat_system_cpp_chat_ser.Chat.Presence.{Presence}
use chat_system_cpp_chat_ser.Auth.Session.{create, revoke}
use chat_system_cpp_chat_ser.Net.Connection.{set_user_id, set_session_token}
use chat_system_cpp_chat_ser.Protocol.Messages.{JsonLib, get_str, get_i64}
use chat_system_cpp_chat_ser.Handlers.World.{
  World, Crypto, Settings, Outcome, finished, threw, k_unauthorized, refuse,
}
use chat_system_cpp_chat_ser.Handlers.Accounts.{
  handle_register, handle_login, log_in, credentials, forget_token, unbind_current, handle_logout,
  handle_presence_by, handle_ping,
}
use chat_system_cpp_chat_ser.Handlers.Invariant.{
  Asker, IsOrderly, Sound, aside_of, call-IsOrderly, drawn-IsOrderly, sessions-IsOrderly,
}
use chat_system_cpp_chat_ser.Handlers.Invariant.Bindings.{
  unbind-IsOrderly, send-Sound, refuse-Sound, bind_session-Sound,
}
use chat_system_cpp_chat_ser.Auth.Session.Owners.{create-NamesUsers, revoke-NamesUsers}
use chat_system_cpp_chat_ser.Handlers.Invariant.Following.{
  Keeps, returning, throwing, fewer, branch, branch_option,
}

pub none-never {ℓ} : {A : Type ℓ} {x : A} → none ≢ some x
none-never h = cc

-- What a search returned, it returned.
pub returned_inj {ℓ} : {A : Type ℓ} {x y : A} → returned x ≡ returned y → x ≡ y
returned_inj {A} {x} {y} h = ap (λ t. elim t as (λ _. A) [ raised ↦ x | returned a ↦ a ]) h

found_user_positive :
    (name : Bytes) (s : Store) (u : User)
    → IsValid s
    → find_user_by_username name s ≡ returned (some u)
    → nat_beq u.id 0 ≡ false
unfolding find_user_by_id
found_user_positive name s u v e = elim (find_user_by_username_lem name s v) [
  | inl n ↦ absurd (none-never (returned_inj (sym n ∙ e)))
  | inr (x, at, named, found) ↦
      let same : x ≡ u = some_inj (returned_inj (sym at ∙ e)) in
      let row = v.users.indexed x.id x found in rw (← same) (ground (arith, row.1))
]

-- The credentials that are accepted are those of the user that was found.
credentials_found :
    (J : JsonLib) (K : Crypto) (o : Settings) (pass : Bytes) (found : Option User) (u : User)
    → credentials J K o pass found ≡ some u
    → found ≡ some u
unfolding credentials
credentials_found J K o pass none u h = h
credentials_found J K o pass (some x) u h = ground (arith, h)

module _ {c : Asker} {p : Presence} (J : JsonLib) (K : Crypto) (o : Settings) {k : ℕ}
    {w : World} where
  pub handle_register-Keeps :
      (req : J.Value) (id : Option ℕ)
      → Sound c p (suc k) w
      → Keeps c p k (handle_register J K o req id w)
  unfolding handle_register call
  handle_register-Keeps req id g =
      let user = get_str J req (codes "username") [] in
      let pass = get_str J req (codes "password") [] in
      let hash = K.make_password_hash pass o.pbkdf2_iter in
      let tried : Sound c p k (record w { store = (create_user user hash o.now w.store).0 }) =
        (drawn-IsOrderly (creates_user user hash o.now) refl tt g.0, g.1) in
      let unfit = is_empty user || is_empty pass || ltb 64 (length user) || ltb (length pass) 4 in
      branch (Keeps c p k) unfit (λ e. returning (refuse-Sound J (fewer g) id _ _))
        (λ e.
          branch_option (Keeps c p k) (create_user user hash o.now w.store).1
            (λ e. returning (refuse-Sound J tried id _ _))
            (λ uid e. returning (send-Sound J tried _)))

  log_in-Sound :
      (id : Option ℕ) (u : User)
      → nat_beq u.id 0 ≡ false
      → Sound c p k w
      → Sound c p k (log_in J K o id u w)
  unfolding log_in call create
  log_in-Sound id u real g =
      let made = create K.random_token u.id o.now w.sessions w.store in
      let new : IsOrderly c p k (record w { sessions = made.0; store = made.1 }) =
        sessions-IsOrderly made.0
          (create-NamesUsers K.random_token o.now w.sessions g.0.sessions u.id w.store real)
          (call-IsOrderly (inserts_session K.random_token u.id o.now) refl refl tt g.0) in
      send-Sound J (bind_session-Sound J u.id K.random_token o.now new) _

  pub handle_login-Keeps :
      (req : J.Value) (id : Option ℕ)
      → Sound c p (suc k) w
      → Keeps c p k (handle_login J K o req id w)
  unfolding handle_login
  handle_login-Keeps req id g =
      let user = get_str J req (codes "username") [] in
      let pass = get_str J req (codes "password") [] in go (find_user_by_username user w.store) refl
    where
      go :
          (t : Try (Option User))
          → find_user_by_username (get_str J req (codes "username") []) w.store ≡ t
          → Keeps c p k (elim t as (λ x. Outcome) [
            | raised ↦ threw w
            | returned found ↦
                elim (credentials J K o (get_str J req (codes "password") []) found)
                  as (λ x. Outcome) [
                    | none ↦ finished (refuse J id k_unauthorized (codes "bad credentials") w)
                    | some u ↦ finished (log_in J K o id u w)
                  ]
          ])
      go raised e = throwing (fewer g)
      go (returned found) e =
          branch_option (Keeps c p k)
            (credentials J K o (get_str J req (codes "password") []) found)
            (λ n. returning (refuse-Sound J (fewer g) id _ _))
            (λ u h. returning (
              log_in-Sound id u
                (found_user_positive _ w.store u g.0.store
                  (e ∙ ap returned (credentials_found J K o _ found u h)))
                (fewer g)))

  forget_token-Sound : Sound c p k w → Sound c p k (forget_token J K o w)
  unfolding forget_token call revoke
  forget_token-Sound g =
      let (m, s) = revoke w.conn.token w.sessions w.store in
      branch (Sound c p k) (is_empty w.conn.token) (λ e. g)
        (λ e. (
          sessions-IsOrderly m
              (revoke-NamesUsers w.conn.token o.now w.sessions g.0.sessions w.store)
              (call-IsOrderly (deletes_session w.conn.token) refl refl tt g.0),
          g.1,
        ))

  unbind_current-IsOrderly : IsOrderly c p k w → IsOrderly c p k (unbind_current J K o w)
  unfolding unbind_current
  unbind_current-IsOrderly g =
      branch (IsOrderly c p k) (nat_beq w.conn.user_id 0) (λ e. g)
        (λ e. unbind-IsOrderly J w.conn.user_id o.now g)

  pub handle_presence_by-Keeps :
      (req : J.Value) (id : Option ℕ) (uid : ℕ)
      → Sound c p (suc k) w
      → Keeps c p k (handle_presence_by J K o req id uid w)
  unfolding handle_presence_by
  handle_presence_by-Keeps req id uid g =
      let target = get_i64 J req (codes "user_id") 0 in
      branch (Keeps c p k) (nat_beq target 0) (λ e. returning (refuse-Sound J (fewer g) id _ _))
        (λ e.
          branch_option (Keeps c p k) (find_user_by_id target w.store)
            (λ e. returning (refuse-Sound J (fewer g) id _ _))
            (λ u e. returning (send-Sound J (fewer g) _)))

  pub handle_ping-Keeps :
      (req : J.Value) (id : Option ℕ)
      → Sound c p (suc k) w
      → Keeps c p k (handle_ping J K o req id w)
  unfolding handle_ping
  handle_ping-Keeps req id g = returning (send-Sound J (fewer g) _)

module _ {c : Asker} {p : Presence} (J : JsonLib) (K : Crypto) (o : Settings) {k : ℕ}
    {w : World} where
  pub handle_logout-Keeps :
      (req : J.Value) (id : Option ℕ)
      → Sound c p (suc k) w
      → Keeps c p k (handle_logout J K o req id w)
  unfolding handle_logout set_session_token set_user_id
  handle_logout-Keeps req id g =
      let left =
        unbind_current-IsOrderly J K o {w = forget_token J K o w}
          (forget_token-Sound J K o (fewer g)).0 in
      returning (send-Sound J (aside_of _ refl refl refl refl refl left, λ a h. cc) _)
