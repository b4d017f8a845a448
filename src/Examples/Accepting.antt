-- ===== src/Examples/Accepting.antt =====
-- The server with two connections.
use chat_system_cpp_chat_ser.Base.{◌≡◌, List, [], ◌∷◌, arith, nat_eq, bytes_eq}
use chat_system_cpp_chat_ser.Base.Map
use chat_system_cpp_chat_ser.Base.NatSet
use chat_system_cpp_chat_ser.Net.Connection.{deliver}
use chat_system_cpp_chat_ser.Net.Connection.Closing.{closes, runs}
use chat_system_cpp_chat_ser.Net.Server.{arrives, again, new_server}
use chat_system_cpp_chat_ser.Net.Server.Registry.{
  is_open, Call, listener, conn, call_all, call_all_lem,
}

abbrev day : List Call
day = listener (arrives ∷ arrives ∷ again ∷ []) ∷ conn 1 closes ∷ conn 1 (runs deliver []) ∷ []

call_all_lem_example :
    NatSet.contains (call_all day (new_server 100)).conns 2
    ≡ is_open (Map.find 2 (call_all day (new_server 100)).objects)
call_all_lem_example = call_all_lem 100 day 2 (omega arith)
