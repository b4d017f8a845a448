-- ===== src/Handlers/Invariant/Following.antt =====
-- What the handlers share keeps the state in order: to follow a handler by its tests.
use chat_system_cpp_chat_ser.Base.{
  ℕ, suc, ◌≡◌, refl, inl, inr, Bool, true, false, not, Option, none, some, [], if◌then◌else◌,
  Bool-cases, nat_beq, nat_eq, is_empty, codes, bytes_eq,
}
use chat_system_cpp_chat_ser.Db.Store.{Try, returned, raised}
use chat_system_cpp_chat_ser.Db.Store.Counters.{fewer_left}
use chat_system_cpp_chat_ser.Chat.Presence.{Presence}
use chat_system_cpp_chat_ser.Auth.Session.{validate}
use chat_system_cpp_chat_ser.Protocol.Messages.{JsonLib, get_str}
use chat_system_cpp_chat_ser.Handlers.World.{
  World, Crypto, Settings, Outcome, finished, threw, require_auth, authorized,
}
use chat_system_cpp_chat_ser.Handlers.Invariant.{Asker, IsOrderly, Sound, sessions-IsOrderly}
use chat_system_cpp_chat_ser.Handlers.Invariant.Bindings.{refuse-Sound, bind_session-Sound}
use chat_system_cpp_chat_ser.Auth.Session.Owners.{validate-NamesUsers}

-- What a handler leaves behind, whether it returns or throws, is in order.
pub data Keeps (c : Asker) (p : Presence) (k : ℕ) : Outcome → Type 0 where
  returning : {w : World} → Sound c p k w → Keeps c p k (finished w)
  throwing : {w : World} → Sound c p k w → Keeps c p k (threw w)

pub data Admits (c : Asker) (p : Presence) (k : ℕ) : World × ℕ → Type 0 where
  admitting : {w : World} {uid : ℕ} → Sound c p k w → Admits c p k (w, uid)

pub admitted : {c : Asker} {p : Presence} {k : ℕ} {r : World × ℕ} → Admits c p k r → Sound c p k r.0
admitted (admitting g) = g

pub fewer_order :
    {c : Asker} {p : Presence} {k : ℕ} {w : World} → IsOrderly c p (suc k) w → IsOrderly c p k w
fewer_order {k = k} {w = w} g = record {
  store = g.store;
  left = fewer_left k w.store g.left;
  queued = g.queued;
  presence = g.presence;
  rooms = g.rooms;
  sessions = g.sessions;
  conn = g.conn;
  others = g.others;
}

pub fewer : {c : Asker} {p : Presence} {k : ℕ} {w : World} → Sound c p (suc k) w → Sound c p k w
fewer g = (fewer_order g.0, g.1)

-- To follow the code by its tests.
pub branch {ℓ} :
    {A : Type ℓ} (P : A → Type 0) (b : Bool) {x y : A}
    → (b ≡ true → P x)
    → (b ≡ false → P y)
    → P (if b then x else y)
branch P true f g = f refl
branch P false f g = g refl

pub branch_option {ℓ κ} :
    {A : Type ℓ} {B : Type κ} (P : A → Type 0) (o : Option B) {x : A} {f : B → A}
    → (o ≡ none → P x)
    → ((b : B) → o ≡ some b → P (f b))
    → P (elim o as (λ _. A) [ none ↦ x | some b ↦ f b ])
branch_option P none f g = f refl
branch_option P (some b) f g = g b refl

pub branch_try {ℓ κ} :
    {A : Type ℓ} {B : Type κ} (P : A → Type 0) (t : Try B) {x : A} {f : B → A}
    → (t ≡ raised → P x)
    → ((b : B) → t ≡ returned b → P (f b))
    → P (elim t as (λ _. A) [ raised ↦ x | returned b ↦ f b ])
branch_try P raised f g = f refl
branch_try P (returned b) f g = g b refl

module _ {c : Asker} {p : Presence} (J : JsonLib) (K : Crypto) (o : Settings) {k : ℕ}
    {w : World} where
  pub require_auth-Admits :
      (req : J.Value) (id : Option ℕ) → Sound c p k w → Admits c p k (require_auth J req id o.now w)
  unfolding require_auth
  require_auth-Admits req id g =
      let tok = get_str J req (codes "token") [] in
      let found = validate tok o.now w.sessions in
      let seen : IsOrderly c p k (record w { sessions = found.0 }) =
        sessions-IsOrderly found.0 (validate-NamesUsers tok o.now w.sessions g.0.sessions) g.0 in
      branch (Admits c p k) (not (nat_beq w.conn.user_id 0)) (λ e. admitting g)
        (λ e.
          branch (Admits c p k) (is_empty tok) (λ e. admitting (refuse-Sound J g id _ _))
            (λ e.
              branch_option (Admits c p k) found.1
                (λ e. admitting (refuse-Sound J (seen, g.1) id _ _))
                (λ i e. admitting (bind_session-Sound J i.user_id tok o.now seen))))

module _ {c : Asker} {p : Presence} (J : JsonLib) (K : Crypto) (o : Settings) {k : ℕ}
    {w : World} where
  pub authorized-Keeps :
      (req : J.Value) (id : Option ℕ) (body : ℕ → World → Outcome)
      → Sound c p (suc k) w
      → ((uid : ℕ) (w' : World) → Sound c p (suc k) w' → Keeps c p k (body uid w'))
      → Keeps c p k (authorized J req id o.now w body)
  unfolding authorized
  authorized-Keeps req id body g rest =
      let (w', uid) = require_auth J req id o.now w in
      let inside = admitted (require_auth-Admits J K o req id g) in
      elim (Bool-cases (nat_beq uid 0)) [
        | inl e ↦ rw (authorized, e) (returning (fewer inside))
        | inr e ↦ rw (authorized, e) (rest uid w' inside)
      ]
