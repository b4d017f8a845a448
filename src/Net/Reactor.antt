-- ===== src/Net/Reactor.antt =====
-- include/net/reactor.h, and what the two reactors share: the table of callbacks, the posts, and how
-- they are run. Descriptors, callbacks and posted closures are numbers; what a callback or a closure
-- does to the reactor is a list of operations, which is an argument.
pub mod Order
pub mod Lawful
pub mod Kept
use chat_system_cpp_chat_ser.Base.{
  ℕ, Bool, true, false, Option, none, some, List, [], ◌∷◌, ◌++◌, nat_eq, bytes_eq,
}
use chat_system_cpp_chat_ser.Base.Map
use chat_system_cpp_chat_ser.Base.Map.{Map}

-- A mask of Reactor::Mode.
pub record Mask : Type 0 where
  pub read : Bool
  pub write : Bool

-- A registration. The select reactor keeps the mask in its table, epoll in the kernel.
pub record Entry : Type 0 where
  pub mask : Mask
  pub cb : ℕ

-- The operations. `ok` is what epoll_ctl answers (add tries ADD, then MOD); the select reactor has
-- no such call, and there it is true.
pub data Op : Type 0 where
  add : Bool → ℕ → Mask → ℕ → Op
  modify : Bool → ℕ → Mask → Op
  remove : ℕ → Op
  post : ℕ → Op
  stop : Op

-- What happened, in order: an entry of the table was set, changed or erased, or its callback was
-- called.
pub data Mark : Type 0 where
  entered : ℕ → Entry → Mark
  changed : ℕ → Mask → Mark
  erased : ℕ → Mark
  called : ℕ → ℕ → Mask → Mark

-- `posted` and `ran` keep the closures that were posted and run, and `marks` what became of the
-- table.
pub record Reactor : Type 0 where
  pub cbs : Map ℕ Entry
  pub pending : List ℕ
  pub stopping : Bool
  pub posted : List ℕ
  pub ran : List ℕ
  pub marks : List Mark

abbrev pub new_reactor : Reactor
new_reactor = record { cbs = []; pending = []; stopping = false; posted = []; ran = []; marks = [] }

abbrev pub mark : Mark → Reactor → Reactor
mark m r = record r { marks = r.marks ++ m ∷ [] }

-- it->second.events = events, where there is an entry.
unfoldable pub change : ℕ → Mask → Option Entry → Map ℕ Entry → Map ℕ Entry
change fd m none t = t
change fd m (some e) t = Map.insert fd (record { mask = m; cb = e.cb }) t

unfoldable pub operate : Op → Reactor → Reactor
unfolding change
operate (add true fd m cb) r =
    let e : Entry = record { mask = m; cb = cb } in
    mark (entered fd e) (record r { cbs = Map.insert fd e r.cbs })
operate (add false fd m cb) r = r
operate (modify true fd m) r =
    mark (changed fd m) (record r { cbs = change fd m (Map.find fd r.cbs) r.cbs })
operate (modify false fd m) r = r
operate (remove fd) r = mark (erased fd) (record r { cbs = Map.erase fd r.cbs })
operate (post task) r = record r {
  pending = r.pending ++ task ∷ [];
  posted = r.posted ++ task ∷ [];
}
operate stop r = record r { stopping = true }

unfoldable pub operate_all : List Op → Reactor → Reactor
unfolding operate
operate_all [] r = r
operate_all (op ∷ ops) r = operate_all ops (operate op r)

-- What the callbacks and the posted closures do.
pub record Clients : Type 0 where
  pub callback : ℕ → Mask → Reactor → List Op
  pub closure : ℕ → Reactor → List Op

unfoldable pub run_batch : Clients → List ℕ → Reactor → Reactor
unfolding operate_all
run_batch k [] r = r
run_batch k (task ∷ batch) r =
    run_batch k batch (operate_all (k.closure task r) (record r { ran = r.ran ++ task ∷ [] }))

-- The posts are taken at once; what they post waits for the next time.
unfoldable pub drain_posts : Clients → Reactor → Reactor
unfolding run_batch
drain_posts k r = run_batch k r.pending (record r { pending = [] })

unfoldable pub calls_back : Clients → ℕ → Mask → Option Entry → Reactor → Reactor
unfolding operate_all
calls_back k fd m none r = r
calls_back k fd m (some e) r = operate_all (k.callback e.cb m r) (mark (called fd e.cb m) r)

-- The callback is looked up, and copied before it is called.
unfoldable pub dispatch : Clients → ℕ → Mask → Reactor → Reactor
unfolding calls_back
dispatch k fd m r = calls_back k fd m (Map.find fd r.cbs) r
