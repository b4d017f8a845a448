-- ===== src/Common/Logger.antt =====
-- src/common/logger.cpp and include/common/logger.h. A file is a number, which fopen answers; the
-- time of a line, as gmtime_r splits it, is an argument. What is done with files is a list of deeds, in order.
pub mod Files
use chat_system_cpp_chat_ser.Base.{
  ℕ, ◌+◌, ◌-◌, ◌%◌, Bool, true, false, ◌||◌, Option, none, some, List, [], ◌∷◌, ◌++◌, ltb,
  if◌then◌else◌, nat_eq, length, is_empty, replicate, Bytes, codes, bytes_beq, bytes_eq,
}
use chat_system_cpp_chat_ser.Common.Util.{to_lower}
use chat_system_cpp_chat_ser.Common.Decimal.{to_string}

pub data Level : Type 0 where
  trace debug info warn error : Level

abbrev pub rank : Level → ℕ
rank trace = 0
rank debug = 1
rank info = 2
rank warn = 3
rank error = 4

-- `sink` is none for stderr.
pub record Logger : Type 0 where
  pub level : ℕ
  pub sink : Option ℕ
  pub file : Bool

pub data Deed : Type 0 where
  opens : ℕ → Deed
  closes : ℕ → Deed
  writes : Option ℕ → Bytes → Deed

unfoldable pub new_logger : Logger
new_logger = record { level = rank info; sink = none; file = false }

unfoldable pub set_level : Level → Logger → Logger
set_level l g = record g { level = rank l }

-- if (file_ && sink_) std::fclose(sink_)
unfoldable pub close_sink : Logger → List Deed
close_sink g = if g.file then elim g.sink [ none ↦ [] | some f ↦ closes f ∷ [] ] else []

-- With what fopen answers.
unfoldable pub set_file : Bytes → Option ℕ → Logger → Logger × List Deed
unfolding close_sink
set_file path answer g =
    if is_empty path then (record g { sink = none; file = false }, close_sink g) else elim answer [
      | none ↦ (
        record g { sink = none; file = false },
        close_sink g
            ++ writes none (
                codes "logger: failed to open "
                ++ path
                ++ codes ", falling back to stderr"
                ++ 10 ∷ [])
              ∷ [],
      )
      | some f ↦ (record g { sink = some f; file = true }, close_sink g ++ opens f ∷ [])
    ]

unfoldable pub parse_level : Bytes → Level
parse_level s =
    let l = to_lower s in
    if bytes_beq l (codes "trace")
    then trace
    else if bytes_beq l (codes "debug")
    then debug
    else if bytes_beq l (codes "info")
    then info
    else if bytes_beq l (codes "warn") || bytes_beq l (codes "warning")
    then warn
    else if bytes_beq l (codes "error") || bytes_beq l (codes "err")
    then error
    else info

unfoldable pub level_str : Level → Bytes
level_str trace = codes "TRACE"
level_str debug = codes "DEBUG"
level_str info = codes "INFO "
level_str warn = codes "WARN "
level_str error = codes "ERROR"

-- std::tm, of a year that is not negative.
pub record Tm : Type 0 where
  pub tm_year : ℕ
  pub tm_mon : ℕ
  pub tm_mday : ℕ
  pub tm_hour : ℕ
  pub tm_min : ℕ
  pub tm_sec : ℕ

-- %0wd
unfoldable pub padded : ℕ → ℕ → Bytes
padded w n = let s = to_string n in replicate (w - length s) 48 ++ s

-- %04d-%02d-%02dT%02d:%02d:%02d.%03lldZ
unfoldable pub stamp : Tm → ℕ → Bytes
unfolding padded
stamp tm ms =
    padded 4 (tm.tm_year + 1900)
    ++ 45 ∷ padded 2 (tm.tm_mon + 1)
    ++ 45 ∷ padded 2 tm.tm_mday
    ++ 84 ∷ padded 2 tm.tm_hour
    ++ 58 ∷ padded 2 tm.tm_min
    ++ 58 ∷ padded 2 tm.tm_sec
    ++ 46 ∷ padded 3 ms
    ++ 90 ∷ []

unfoldable pub log : Level → Tm → ℕ → Bytes → Logger → List Deed
unfolding level_str stamp
log l tm now_ms msg g =
    if ltb (rank l) g.level
    then []
    else writes g.sink (stamp tm (now_ms % 1000) ++ 32 ∷ level_str l ++ 32 ∷ msg ++ 10 ∷ []) ∷ []

-- What is asked of the logger between its construction and its destruction.
pub data Use : Type 0 where
  to_file : Bytes → Option ℕ → Use
  from_level : Level → Use
  logs : Level → Tm → ℕ → Bytes → Use

unfoldable pub use_one : Use → Logger → Logger × List Deed
unfolding set_file set_level log
use_one (to_file path answer) g = set_file path answer g
use_one (from_level l) g = (set_level l g, [])
use_one (logs l tm now_ms msg) g = (g, log l tm now_ms msg g)

unfoldable pub use_all : List Use → Logger → Logger × List Deed
unfolding use_one
use_all [] g = (g, [])
use_all (u ∷ us) g =
    let (g1, deeds) = use_one u g in let (g2, later) = use_all us g1 in (g2, deeds ++ later)

-- The uses, and then the destructor.
unfoldable pub lifetime : List Use → List Deed
unfolding use_all new_logger close_sink
lifetime us = let (g, deeds) = use_all us new_logger in deeds ++ close_sink g
