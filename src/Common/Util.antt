-- ===== src/Common/Util.antt =====
-- The text helpers of src/common/util.cpp, in the "C" locale.
pub mod Laws
use chat_system_cpp_chat_ser.Base.{
  ℕ, ◌+◌, ◌-◌, Bool, true, false, ◌&&◌, ◌||◌, List, [], ◌∷◌, ◌++◌, map, leb, if◌then◌else◌, nat_beq,
  nat_eq, is_empty, Bytes, bytes_eq,
}

unfoldable pub isspace : ℕ → Bool
isspace c = (leb 9 c && leb c 13) || nat_beq c 32

unfoldable pub trim_start : Bytes → Bytes
trim_start [] = []
trim_start (c ∷ s) = let rest = trim_start s in if isspace c then rest else c ∷ s

unfoldable pub trim_end : Bytes → Bytes
trim_end [] = []
trim_end (c ∷ s) = let rest = trim_end s in if isspace c && is_empty rest then [] else c ∷ rest

-- The two indices run inwards; what lies between them is kept.
unfoldable pub trim : Bytes → Bytes
trim s = trim_end (trim_start s)

-- `cur` and `out` are the variables of the loop.
unfoldable pub split_loop : ℕ → Bytes → Bytes → List Bytes → List Bytes
split_loop d [] cur out = out ++ cur ∷ []
split_loop d (c ∷ s) cur out = elim (nat_beq c d) [
  | true ↦ split_loop d s [] (out ++ cur ∷ [])
  | false ↦ split_loop d s (cur ++ c ∷ []) out
]

unfoldable pub split : Bytes → ℕ → List Bytes
unfolding split_loop
split s d = split_loop d s [] []

unfoldable pub tolower : ℕ → ℕ
tolower c = if leb b'A' c && leb c b'Z' then c + 32 else c

unfoldable pub toupper : ℕ → ℕ
toupper c = if leb b'a' c && leb c b'z' then c - 32 else c

unfoldable pub to_lower : Bytes → Bytes
unfolding tolower
to_lower s = map tolower s

unfoldable pub to_upper : Bytes → Bytes
unfolding toupper
to_upper s = map toupper s
