-- ===== src/Common/Tables.antt =====
-- Facts about all values below a bound, by evaluation.
use chat_system_cpp_chat_ser.Base.{ℕ, zero, suc, ◌<◌, ◌≡◌, Bool, true, false, arith}

unfoldable pub first_pass : ℕ → (ℕ → Bool) → Bool
first_pass zero test = true
first_pass (suc bound) test =
    let smaller = first_pass bound test in elim (test bound) [ false ↦ false | true ↦ smaller ]

-- A test that all values below a bound pass holds of each of them.
pub first_pass_at :
    (bound : ℕ) (test : ℕ → Bool) (k : ℕ) → first_pass bound test ≡ true → k < bound → test k ≡ true
unfolding first_pass
first_pass_at zero test k passed small = absurd (omega (small, arith))
first_pass_at (suc bound) test k passed small = ground (first_pass_at bound test k, arith)
