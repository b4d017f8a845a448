-- ===== src/Net/Reactor/Lawful.antt =====
-- A callback is called only while it is in the table.
use chat_system_cpp_chat_ser.Base.{
  ℕ, ◌≡◌, refl, sym, ap, subst, ◌∙◌, true, false, Option, none, some, List, [], ◌∷◌, ◌++◌, nat_eq,
  bytes_eq,
}
use chat_system_cpp_chat_ser.Base.Map
use chat_system_cpp_chat_ser.Base.Map.{Map}
use chat_system_cpp_chat_ser.Net.Reactor.{
  Mask, Entry, Op, add, modify, remove, post, stop, Mark, entered, changed, erased, called, Reactor,
  mark, change, operate, operate_all, Clients, run_batch, drain_posts, calls_back, dispatch,
}

-- The table after one more mark.
abbrev pub set_by : Mark → Map ℕ Entry → Map ℕ Entry
set_by (entered fd e) t = Map.insert fd e t
set_by (changed fd m) t = change fd m (Map.find fd t) t
set_by (erased fd) t = Map.erase fd t
set_by (called fd cb m) t = t

abbrev pub IsAllowed : Mark → Map ℕ Entry → Type 0
IsAllowed (entered fd e) t = Unit {0}
IsAllowed (changed fd m) t = Unit {0}
IsAllowed (erased fd) t = Unit {0}
IsAllowed (called fd cb m) t = (e : Entry) × ((Map.find fd t ≡ some e) × (e.cb ≡ cb))

-- Each call is of the callback that was entered last for its descriptor and has not been erased
-- since.
abbrev pub IsLawful : Map ℕ Entry → List Mark → Type 0
IsLawful t [] = Unit {0}
IsLawful t (m ∷ ms) = IsAllowed m t × IsLawful (set_by m t) ms

abbrev table : Map ℕ Entry → List Mark → Map ℕ Entry
table t [] = t
table t (m ∷ ms) = table (set_by m t) ms

table-append :
    (t : Map ℕ Entry) (ms : List Mark) (m : Mark) → table t (ms ++ m ∷ []) ≡ set_by m (table t ms)
table-append t [] m = refl
table-append t (x ∷ ms) m = table-append (set_by x t) ms m

IsLawful-append :
    (t : Map ℕ Entry) (ms : List Mark) (m : Mark)
    → IsLawful t ms
    → IsAllowed m (table t ms)
    → IsLawful t (ms ++ m ∷ [])
IsLawful-append t [] m h a = (a, tt)
IsLawful-append t (x ∷ ms) m h a = (h.0, IsLawful-append (set_by x t) ms m h.1 a)

-- The calls so far were lawful, and the table is what the marks make of it.
pub record Inv (r : Reactor) : Type 0 where
  pub lawful : IsLawful [] r.marks
  pub current : r.cbs ≡ table [] r.marks

mark-Inv :
    (r : Reactor) (m : Mark) (t : Map ℕ Entry)
    → Inv r
    → IsAllowed m r.cbs
    → set_by m r.cbs ≡ t
    → Inv (mark m (record r { cbs = t }))
mark-Inv r m t h a e = record {
  lawful = IsLawful-append [] r.marks m h.lawful (subst (IsAllowed m) h.current a);
  current = sym e ∙ ap (set_by m) h.current ∙ sym (table-append [] r.marks m);
}

pub operate-Inv : (op : Op) (r : Reactor) → Inv r → Inv (operate op r)
unfolding operate
operate-Inv (add true fd m cb) r h =
    mark-Inv r (entered fd (record { mask = m; cb = cb })) _ h tt refl
operate-Inv (add false fd m cb) r h = h
operate-Inv (modify true fd m) r h = mark-Inv r (changed fd m) _ h tt refl
operate-Inv (modify false fd m) r h = h
operate-Inv (remove fd) r h = mark-Inv r (erased fd) _ h tt refl
operate-Inv (post task) r h = record { lawful = h.lawful; current = h.current }
operate-Inv stop r h = record { lawful = h.lawful; current = h.current }

operate_all-Inv : (ops : List Op) (r : Reactor) → Inv r → Inv (operate_all ops r)
unfolding operate_all
operate_all-Inv [] r h = h
operate_all-Inv (op ∷ ops) r h = operate_all-Inv ops (operate op r) (operate-Inv op r h)

run_batch-Inv : (k : Clients) (batch : List ℕ) (r : Reactor) → Inv r → Inv (run_batch k batch r)
unfolding run_batch
run_batch-Inv k [] r h = h
run_batch-Inv k (task ∷ batch) r h =
    let ran_it = record r { ran = r.ran ++ task ∷ [] } in
    run_batch-Inv k batch (operate_all (k.closure task r) ran_it) (
      operate_all-Inv (k.closure task r) ran_it (record { lawful = h.lawful; current = h.current }))

pub drain_posts-Inv : (k : Clients) (r : Reactor) → Inv r → Inv (drain_posts k r)
unfolding drain_posts
drain_posts-Inv k r h =
    run_batch-Inv k r.pending (record r { pending = [] })
      (record { lawful = h.lawful; current = h.current })

calls_back-Inv :
    (k : Clients) (fd : ℕ) (m : Mask) (o : Option Entry) (r : Reactor)
    → Map.find fd r.cbs ≡ o
    → Inv r
    → Inv (calls_back k fd m o r)
unfolding calls_back
calls_back-Inv k fd m none r found h = h
calls_back-Inv k fd m (some e) r found h =
    operate_all-Inv (k.callback e.cb m r) _
      (mark-Inv r (called fd e.cb m) r.cbs h (e, (found, refl)) refl)

pub dispatch-Inv : (k : Clients) (fd : ℕ) (m : Mask) (r : Reactor) → Inv r → Inv (dispatch k fd m r)
unfolding dispatch
dispatch-Inv k fd m r h = calls_back-Inv k fd m (Map.find fd r.cbs) r refl h
