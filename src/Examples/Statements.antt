-- ===== src/Examples/Statements.antt =====
-- The statements and rows of src/db/repositories.cpp on small data.
use chat_system_cpp_chat_ser.Base.{
  ◌++◌, ℕ, ◌%◌, ◌≤◌, ◌≡◌, refl, ◌≢◌, ◌↔◌, ◌⊎◌, inl, inr, ◌||◌, none, some, [], ◌∷◌, map, arith,
  if◌then◌else◌, Bool-cases, nat_beq, nat_eq, Bytes, codes, bytes_eq,
}
use chat_system_cpp_chat_ser.Db.Store.{Message, returned}
use chat_system_cpp_chat_ser.Db.Mysql.{render, message_of, each_row}
use chat_system_cpp_chat_ser.Db.Mysql.Messages.{instant}
use chat_system_cpp_chat_ser.Db.Mysql.Literals.{IsEscaped, skeleton, run, outside}
use chat_system_cpp_chat_ser.Db.Mysql.Injection.{finds_user, parts, render-skeleton}
use chat_system_cpp_chat_ser.Db.Mysql.Rows.{message_row, without_nul, each_row-message_row}
use chat_system_cpp_chat_ser.Db.Mysql.Instants.{milliseconds, milliseconds-instant}

-- An escape that puts a backslash before quotes and backslashes.
abbrev backslashed : Bytes → Bytes
backslashed [] = []
backslashed (c ∷ cs) =
    let rest = backslashed cs in if nat_beq c 39 || nat_beq c 92 then 92 ∷ c ∷ rest else c ∷ rest

cons-IsEscaped : (c : ℕ) (cs : Bytes) → c ≢ 39 → c ≢ 92 → IsEscaped cs → IsEscaped (c ∷ cs)
cons-IsEscaped c [] q b h = (q, b)
cons-IsEscaped c (d ∷ cs) q b h = inr (q, b, h)

backslashed-IsEscaped : (s : Bytes) → IsEscaped (backslashed s)
backslashed-IsEscaped [] = tt
backslashed-IsEscaped (c ∷ cs) = elim (Bool-cases (nat_beq c 39 || nat_beq c 92)) [
  | inl special ↦ rw special (inl (refl, backslashed-IsEscaped cs))
  | inr plain ↦
      rw plain
        (cons-IsEscaped c (backslashed cs) (ground arith) (ground arith) (backslashed-IsEscaped cs))
]

render-skeleton_example :
    (skeleton outside (render backslashed (parts (finds_user (codes "x' OR '1'='1"))))
      ≡ skeleton outside (render (λ s. []) (parts (finds_user (codes "x' OR '1'='1")))))
    × (run outside (render backslashed (parts (finds_user (codes "x' OR '1'='1")))) ≡ outside)
render-skeleton_example =
    render-skeleton backslashed backslashed-IsEscaped (finds_user (codes "x' OR '1'='1"))

abbrev note : Message
note = record {
  id = 9;
  sender_id = 1;
  receiver_id = some 2;
  room_id = none;
  content = codes "hi" ++ 0 ∷ codes "ya";
  status = 1;
  created_at_ms = 1700;
}

each_row-message_row_example :
    each_row message_of (map (message_row (codes ".000")) (note ∷ []))
    ≡ returned (map without_nul (note ∷ []))
each_row-message_row_example = each_row-message_row (codes ".000") (note ∷ []) refl (
  record {
    id = omega arith;
    sender = omega arith;
    receiver = omega arith;
    room = tt;
    status = omega arith;
    created = omega arith;
  },
  tt,
)

milliseconds-instant_example :
    (milliseconds (render backslashed (instant 1007 [])) ≡ 1007)
    ↔ ((1007 % 1000 ≡ 0) ⊎ (100 ≤ 1007 % 1000))
milliseconds-instant_example = milliseconds-instant backslashed 1007
