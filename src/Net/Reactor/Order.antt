-- ===== src/Net/Reactor/Order.antt =====
-- Closures run in the order of the posts.
use chat_system_cpp_chat_ser.Base.{
  ℕ, ◌≡◌, sym, ap, ◌∙◌, true, false, Option, none, some, List, [], ◌∷◌, ◌++◌, append_assoc,
  append-nil, nat_eq, bytes_eq,
}
use chat_system_cpp_chat_ser.Base.Map
use chat_system_cpp_chat_ser.Net.Reactor.{
  Mask, Entry, Op, add, modify, remove, post, stop, Reactor, operate, operate_all, Clients,
  run_batch, drain_posts, calls_back, dispatch,
}

-- While `batch` is being run.
abbrev IsAt : List ℕ → Reactor → Type 0
IsAt batch r = r.posted ≡ r.ran ++ (batch ++ r.pending)

-- The closures posted are those that ran, in this order, and then those that wait.
abbrev pub IsOrdered : Reactor → Type 0
IsOrdered r = r.posted ≡ r.ran ++ r.pending

operate-IsAt : (op : Op) (batch : List ℕ) (r : Reactor) → IsAt batch r → IsAt batch (operate op r)
unfolding operate
operate-IsAt (add true fd m cb) batch r h = h
operate-IsAt (add false fd m cb) batch r h = h
operate-IsAt (modify true fd m) batch r h = h
operate-IsAt (modify false fd m) batch r h = h
operate-IsAt (remove fd) batch r h = h
operate-IsAt (post task) batch r h =
    ap (λ xs. xs ++ task ∷ []) h
    ∙ append_assoc r.ran (batch ++ r.pending) (task ∷ [])
    ∙ ap (λ xs. r.ran ++ xs) (append_assoc batch r.pending (task ∷ []))
operate-IsAt stop batch r h = h

operate_all-IsAt :
    (ops : List Op) (batch : List ℕ) (r : Reactor) → IsAt batch r → IsAt batch (operate_all ops r)
unfolding operate_all
operate_all-IsAt [] batch r h = h
operate_all-IsAt (op ∷ ops) batch r h =
    operate_all-IsAt ops batch (operate op r) (operate-IsAt op batch r h)

run_batch-IsAt :
    (k : Clients) (batch : List ℕ) (r : Reactor) → IsAt batch r → IsOrdered (run_batch k batch r)
unfolding run_batch
run_batch-IsAt k [] r h = h
run_batch-IsAt k (task ∷ batch) r h =
    let ran_it = record r { ran = r.ran ++ task ∷ [] } in
    run_batch-IsAt k batch (operate_all (k.closure task r) ran_it) (
      operate_all-IsAt (k.closure task r) batch ran_it
        (h ∙ sym (append_assoc r.ran (task ∷ []) (batch ++ r.pending))))

pub operate-IsOrdered : (op : Op) (r : Reactor) → IsOrdered r → IsOrdered (operate op r)
operate-IsOrdered op r h = operate-IsAt op [] r h

pub drain_posts-IsOrdered : (k : Clients) (r : Reactor) → IsOrdered r → IsOrdered (drain_posts k r)
unfolding drain_posts
drain_posts-IsOrdered k r h =
    run_batch-IsAt k r.pending (record r { pending = [] })
      (h ∙ ap (λ xs. r.ran ++ xs) (sym (append-nil r.pending)))

calls_back-IsOrdered :
    (k : Clients) (fd : ℕ) (m : Mask) (o : Option Entry) (r : Reactor)
    → IsOrdered r
    → IsOrdered (calls_back k fd m o r)
unfolding calls_back
calls_back-IsOrdered k fd m none r h = h
calls_back-IsOrdered k fd m (some e) r h = operate_all-IsAt (k.callback e.cb m r) [] _ h

pub dispatch-IsOrdered :
    (k : Clients) (fd : ℕ) (m : Mask) (r : Reactor) → IsOrdered r → IsOrdered (dispatch k fd m r)
unfolding dispatch
dispatch-IsOrdered k fd m r h = calls_back-IsOrdered k fd m (Map.find fd r.cbs) r h
