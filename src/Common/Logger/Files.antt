-- ===== src/Common/Logger/Files.antt =====
-- The logger and its file.
use chat_system_cpp_chat_ser.Base.{
  ℕ, ◌≡◌, refl, ap, ◌∙◌, inl, inr, Bool, true, false, not, ◌&&◌, Option, none, some, List, [], ◌∷◌,
  ◌++◌, append_assoc, append-nil, arith, ltb, Bool-cases, nat_beq, nat_beq_iff, nat_eq, is_empty,
  Bytes, bytes_beq, bytes_eq,
}
use chat_system_cpp_chat_ser.Common.Util.{to_lower, trim, trim_end, trim_start, isspace}
use chat_system_cpp_chat_ser.Common.Logger.{
  Level, trace, debug, info, warn, error, rank, Logger, Deed, opens, closes, writes, new_logger,
  set_level, close_sink, set_file, parse_level, level_str, log, Use, to_file, from_level, logs,
  use_one, use_all, lifetime,
}

abbrev pub same_file : Option ℕ → Option ℕ → Bool
same_file none none = true
same_file (some f) (some g) = nat_beq f g
same_file _ _ = false

-- The protocol: a file is opened while none is open, the open file is the one that is closed, a
-- line goes to the open file, or to stderr while none is open; in the end none is open.
abbrev pub lawful : Option ℕ → List Deed → Bool
lawful at [] = same_file at none
lawful at (opens f ∷ deeds) = let rest = lawful (some f) deeds in same_file at none && rest
lawful at (closes f ∷ deeds) = let rest = lawful none deeds in same_file at (some f) && rest
lawful at (writes to line ∷ deeds) = let rest = lawful at deeds in same_file at to && rest

-- The flag says whether the sink is a file.
record IsPointed (g : Logger) (at : Option ℕ) : Type 0 where
  sink : g.sink ≡ at
  file : g.file ≡ not (same_file at none)

same_file_self : (at : Option ℕ) → same_file at at ≡ true
same_file_self none = refl
same_file_self (some f) = (nat_beq_iff f f).1 refl

close_sink_lem :
    (g : Logger) (at : Option ℕ) (deeds : List Deed)
    → IsPointed g at
    → lawful none deeds ≡ true
    → lawful at (close_sink g ++ deeds) ≡ true
unfolding close_sink
close_sink_lem g none deeds v h = rw (close_sink, v.file) h
close_sink_lem g (some f) deeds v h =
    rw (close_sink, v.file, v.sink, h, same_file_self (some f)) refl

set_file_lem :
    (path : Bytes) (answer : Option ℕ) (g : Logger) (at : Option ℕ)
    → IsPointed g at
    → (next : Option ℕ) × IsPointed (set_file path answer g).0 next
      × ((later : List Deed)
          → lawful next later ≡ true
          → lawful at ((set_file path answer g).1 ++ later) ≡ true)
unfolding set_file
set_file_lem path none g at v = elim (Bool-cases (is_empty path)) [
  | inl e ↦
      rw (set_file, e)
        (none, record { sink = refl; file = refl }, λ later h. close_sink_lem g at later v h)
  | inr e ↦
      rw (set_file, e)
        (
          none,
          record { sink = refl; file = refl },
          λ later h.
              ap (lawful at) (append_assoc (close_sink g) _ later) ∙ close_sink_lem g at _ v h,
        )
]
set_file_lem path (some f) g at v = elim (Bool-cases (is_empty path)) [
  | inl e ↦
      rw (set_file, e)
        (none, record { sink = refl; file = refl }, λ later h. close_sink_lem g at later v h)
  | inr e ↦
      rw (set_file, e)
        (
          some f,
          record { sink = refl; file = refl },
          λ later h.
              ap (lawful at) (append_assoc (close_sink g) _ later)
              ∙ close_sink_lem g at (opens f ∷ later) v h,
        )
]

-- A use leaves the logger with some file, and does what the protocol allows.
use_one_lem :
    (u : Use) (g : Logger) (at : Option ℕ)
    → IsPointed g at
    → (next : Option ℕ) × IsPointed (use_one u g).0 next
      × ((later : List Deed)
          → lawful next later ≡ true
          → lawful at ((use_one u g).1 ++ later) ≡ true)
unfolding use_one set_file set_level log
use_one_lem (to_file path answer) g at v = set_file_lem path answer g at v
use_one_lem (from_level l) g at v = (at, record { sink = v.sink; file = v.file }, λ later h. h)
use_one_lem (logs l tm now_ms msg) g at v = (
  at,
  v,
  λ later h. elim (Bool-cases (ltb (rank l) g.level)) [
    | inl quiet ↦ ground (arith, h)
    | inr loud ↦ rw (log, loud, v.sink, same_file_self at) h
  ],
)

use_all_lem :
    (us : List Use) (g : Logger) (at : Option ℕ)
    → IsPointed g at
    → lawful at ((use_all us g).1 ++ close_sink (use_all us g).0) ≡ true
unfolding use_all
use_all_lem [] g at v = rw (← append-nil (close_sink g)) (close_sink_lem g at [] v refl)
use_all_lem (u ∷ us) g at v =
    let (next, w, goes) = use_one_lem u g at v in
    rw append_assoc (goes _ (use_all_lem us (use_one u g).0 next w))

-- Whatever is asked of the logger from its construction to its destruction, and whatever fopen
-- answers: a file is opened only while none is open, each that is opened is closed once, nothing is
-- closed twice, a line goes to the file that is open or to stderr while none is, and in the end no
-- file is open.
pub lifetime-lawful : (us : List Use) → lawful none (lifetime us) ≡ true
unfolding lifetime new_logger
lifetime-lawful us = use_all_lem us new_logger none (record { sink = refl; file = refl })

-- The name of a level, as a line shows it, is read back as the level.
pub parse_level-level_str : (l : Level) → parse_level (trim (level_str l)) ≡ l
unfolding parse_level level_str trim to_lower bytes_beq trim_end trim_start isspace
parse_level-level_str trace = refl
parse_level-level_str debug = refl
parse_level-level_str info = refl
parse_level-level_str warn = refl
parse_level-level_str error = refl
