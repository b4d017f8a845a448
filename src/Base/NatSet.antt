-- ===== src/Base/NatSet.antt =====
-- `std::unordered_set<std::uint64_t>` as a list of distinct members.
use Prim.Native.Nat.{ℕ}
use mathlib.Core.Path.{◌≡◌, refl}
use mathlib.Core.Bool.{Bool, false, ◌&&◌, ◌||◌, not}
use mathlib.Core.List.{List, [], ◌∷◌}
use native.Mathlib.Omega.{arith}
use chat_system_cpp_chat_ser.Base.Tests.{nat_beq, if◌then◌else◌}

-- s.count(u) > 0
unfoldable pub contains : List ℕ → ℕ → Bool
contains [] u = false
contains (x ∷ s) u = let rest = contains s u in nat_beq x u || rest

-- s.insert(u)
unfoldable pub insert : ℕ → List ℕ → List ℕ
insert u [] = u ∷ []
insert u (x ∷ s) = let rest = insert u s in if nat_beq x u then x ∷ s else x ∷ rest

-- s.erase(u)
unfoldable pub erase : ℕ → List ℕ → List ℕ
erase u [] = []
erase u (x ∷ s) = let rest = erase u s in if nat_beq x u then rest else x ∷ rest

-- The set of the elements of a vector.
unfoldable pub of_list : List ℕ → List ℕ
unfolding insert
of_list [] = []
of_list (x ∷ xs) = insert x (of_list xs)

pub contains-insert :
    (u v : ℕ) (s : List ℕ) → contains (insert u s) v ≡ (nat_beq u v || contains s v)
unfolding contains insert
contains-insert u v [] = ground arith
contains-insert u v (x ∷ s) = ground (arith, contains-insert u v s)

pub contains-erase :
    (u v : ℕ) (s : List ℕ) → contains (erase u s) v ≡ (not (nat_beq u v) && contains s v)
unfolding contains erase
contains-erase u v [] = ground arith
contains-erase u v (x ∷ s) = ground (arith, contains-erase u v s)

pub contains-of_list : (v : ℕ) (xs : List ℕ) → contains (of_list xs) v ≡ contains xs v
unfolding of_list contains
contains-of_list v [] = refl
contains-of_list v (x ∷ xs) =
    ground (arith, contains-insert x v (of_list xs), contains-of_list v xs)

pub ruleset set_laws = (contains-insert, contains-erase, contains-of_list)
