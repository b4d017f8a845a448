-- ===== src/Db/Store/Records.antt =====
-- include/db/repositories.h: the rows, the store, and what its methods share.
use chat_system_cpp_chat_ser.Base.{
  ℕ, ◌+◌, ◌%◌, ◌^◌, Option, none, some, List, [], nat_eq, Bytes, bytes_eq,
}
use chat_system_cpp_chat_ser.Base.Map.{Map}

pub record User : Type 0 where
  pub id : ℕ
  pub username : Bytes
  pub password_hash : Bytes
  pub created_at_ms : ℕ
  pub last_seen_ms : ℕ

pub record SessionRow : Type 0 where
  pub token : Bytes
  pub user_id : ℕ
  pub last_active_ms : ℕ

pub record Room : Type 0 where
  pub id : ℕ
  pub name : Bytes
  pub created_at_ms : ℕ

pub record Message : Type 0 where
  pub id : ℕ
  pub sender_id : ℕ
  pub receiver_id : Option ℕ
  pub room_id : Option ℕ
  pub content : Bytes
  pub status : ℕ
  pub created_at_ms : ℕ

pub record Store : Type 0 where
  pub next_user_id : ℕ
  pub next_room_id : ℕ
  pub next_msg_id : ℕ
  pub users : Map ℕ User
  pub username_idx : Map Bytes ℕ
  pub sessions : List SessionRow
  pub rooms : Map ℕ Room
  pub room_name_idx : Map Bytes ℕ
  pub room_members : Map ℕ (List ℕ)
  pub messages : List Message
  pub undelivered : Map ℕ (List ℕ)

abbrev pub empty_store : Store
empty_store = record {
  next_user_id = 1;
  next_room_id = 1;
  next_msg_id = 1;
  users = [];
  username_idx = [];
  sessions = [];
  rooms = [];
  room_name_idx = [];
  room_members = [];
  messages = [];
  undelivered = [];
}

-- A call that may throw `std::out_of_range`, from `unordered_map::at`.
pub data Try {ℓ} (A : Type ℓ) : Type ℓ where
  returned : A → Try A
  raised : Try A

abbrev pub at_or_raise {ℓ} : {A : Type ℓ} → Option A → Try A
at_or_raise none = raised
at_or_raise (some a) = returned a

-- `n++` on a uint64_t.
unfoldable pub next_id : ℕ → ℕ
next_id n = (n + 1) % 2 ^ 64

-- `room_members_[r]`, which a first use makes empty.
abbrev pub members_or_empty : Option (List ℕ) → List ℕ
members_or_empty none = []
members_or_empty (some m) = m
