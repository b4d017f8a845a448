-- ===== src/Net/Reactor/Kept.antt =====
-- What a loop over the parts of a reactor needs of a property.
use chat_system_cpp_chat_ser.Base.{ℕ, refl, Bool, true, false, if◌then◌else◌, nat_eq, bytes_eq}
use chat_system_cpp_chat_ser.Net.Reactor.{
  Mask, Op, Reactor, new_reactor, operate, Clients, drain_posts, dispatch,
}
use chat_system_cpp_chat_ser.Net.Reactor.Order.{
  IsOrdered, operate-IsOrdered, drain_posts-IsOrdered, dispatch-IsOrdered,
}
use chat_system_cpp_chat_ser.Net.Reactor.Lawful.{Inv, operate-Inv, drain_posts-Inv, dispatch-Inv}

-- A property that each part of a turn of the loop keeps.
pub record Kept (k : Clients) (P : Reactor → Type 0) : Type 0 where
  pub operated : (op : Op) (r : Reactor) → P r → P (operate op r)
  pub drained : (r : Reactor) → P r → P (drain_posts k r)
  pub dispatched : (fd : ℕ) (m : Mask) (r : Reactor) → P r → P (dispatch k fd m r)

-- The test of stopping_ before a turn.
pub unless_stopped :
    (P : Reactor → Type 0) (r : Reactor) (stopping : Bool) (next : Reactor)
    → P r
    → P next
    → P (if stopping then r else next)
unless_stopped P r true next h k = h
unless_stopped P r false next h k = k

-- Both of what the loops keep.
abbrev pub IsWell : Reactor → Type 0
IsWell r = IsOrdered r × Inv r

pub IsWell-Kept : (k : Clients) → Kept k IsWell
IsWell-Kept k = record {
  operated = λ op r h. (operate-IsOrdered op r h.0, operate-Inv op r h.1);
  drained = λ r h. (drain_posts-IsOrdered k r h.0, drain_posts-Inv k r h.1);
  dispatched = λ fd m r h. (dispatch-IsOrdered k fd m r h.0, dispatch-Inv k fd m r h.1);
}

pub new_reactor-IsWell : IsWell new_reactor
new_reactor-IsWell = (refl, record { lawful = tt; current = refl })
