-- ===== src/Looper.antt =====
-- The client's event loop, RpcEventLooper of client/src/RpcEventLooper.cpp: the calls that wait for
-- their response, and their timers.
-- Callbacks are shared objects: `cbs` is the store, and a `shared_ptr` is a place in it, `none` for
-- nullptr. A connection is named by its endpoint, which is the port in front of the host's name.
-- The lock `m_mutex` is held where an operation below reads or writes the tables; operations of
-- several threads are sequences of them. An `unordered_map` is walked in the order of its list.
pub mod Conns
pub mod Deadline
pub mod Expire
pub mod InTime
pub mod Lost
pub mod Poll
pub mod ReqId
pub mod Select
pub mod Send
pub mod Stop
mod Tests
use rpcframe.Prelude.{
  ℕ, zero, suc, ◌+◌, ◌<◌, Bool, true, false, Option, none, some, List, [], ◌∷◌, ◌++◌, Str, find,
  erase, assign, emplace, ltb, ◌==◌, if◌then◌else◌,
}
use rpcframe.Package.{RpcStatus, cb_timeout, disconnected, status_code}
use rpcframe.CallBack.{CallBack, callback_safe}
use rpcframe.ClientConn.{ClientConn}

pub record Looper : Type 0 where
  pub stopped : Bool
  pub eps : List Str  -- the configuration's
  pub max_req_size : ℕ
  pub ep_conn_map : List (Str × ClientConn)
  pub cbs : List CallBack
  pub id_cb_map : List (Str × Option ℕ)
  pub conn_cb_map : List (Str × List (Option ℕ))
  pub cb_timer_map : List (ℕ × Str)  -- by time, and in the order of insertion
  pub req_seqid : ℕ  -- uint32_t
  pub host_ip : Str
  pub watched : List ℕ  -- the descriptors that epoll watches

-- A method of the object at a place of the store.
abbrev pub modify : ℕ → (CallBack → CallBack) → List CallBack → List CallBack
modify i f [] = []
modify zero f (cb ∷ cbs) = f cb ∷ cbs
modify (suc i) f (cb ∷ cbs) = cb ∷ modify i f cbs

-- `if (cb != nullptr) cb->callback_safe(st, RawData())`
unfoldable pub tell : RpcStatus → Option ℕ → List CallBack → List CallBack
unfolding callback_safe status_code
tell st none cbs = cbs
tell st (some i) cbs = modify i (callback_safe (status_code st) []) cbs

-- `std::multimap`: insertion behind the entries of the same key, and `erase(key)`, of all of them.
unfoldable pub insert_timer : ℕ → Str → List (ℕ × Str) → List (ℕ × Str)
insert_timer tm id [] = (tm, id) ∷ []
insert_timer tm id ((t, j) ∷ ts) =
    let rest = insert_timer tm id ts in if ltb tm t then (tm, id) ∷ ((t, j) ∷ ts) else (t, j) ∷ rest

unfoldable pub erase_timers : ℕ → List (ℕ × Str) → List (ℕ × Str)
erase_timers tm [] = []
erase_timers tm ((t, j) ∷ ts) =
    let rest = erase_timers tm ts in if t == tm then rest else (t, j) ∷ rest

abbrev pub pointer : Option (Option ℕ) → Option ℕ
pointer none = none
pointer (some p) = p

unfoldable pub get_cb : Str → Looper → Option ℕ
unfolding find
get_cb id l = pointer (find id l.id_cb_map)

unfoldable pub remove_cb : Str → Looper → Looper
unfolding erase
remove_cb id l = record l { id_cb_map = erase id l.id_cb_map }

-- The tables that `dealTimeoutCb` changes.
pub record Tables : Type 0 where
  pub calls : List CallBack
  pub pending : List (Str × Option ℕ)
  pub timers : List (ℕ × Str)

-- The loop over the timers `ts`; `clock` gives the time of each of its rounds.
unfoldable pub deal_loop : (ℕ → ℕ) → List (ℕ × Str) → List CallBack → List (Str × Option ℕ) → Tables
unfolding find tell erase
deal_loop clock [] calls pending = record { calls = calls; pending = pending; timers = [] }
deal_loop clock ((tm, id) ∷ ts) calls pending =
    let later = λ (n : ℕ). clock (suc n) in
    elim (pointer (find id pending)) [
      | none ↦ deal_loop later ts calls pending
      | some i ↦
          (let next = deal_loop later ts (tell cb_timeout (some i) calls) (erase id pending) in
            if ltb tm (clock 0)
            then next
            else record { calls = calls; pending = pending; timers = (tm, id) ∷ ts })
    ]

abbrev pub store : Looper → Tables → Looper
store l t = record l { cbs = t.calls; id_cb_map = t.pending; cb_timer_map = t.timers }

unfoldable pub deal_timeout_cb : (ℕ → ℕ) → Looper → Looper
unfolding deal_loop
deal_timeout_cb clock l = store l (deal_loop clock l.cb_timer_map l.cbs l.id_cb_map)

unfoldable pub tell_all : List (Str × Option ℕ) → List CallBack → List CallBack
unfolding tell
tell_all [] cbs = cbs
tell_all ((id, p) ∷ m) cbs = tell_all m (tell disconnected p cbs)

unfoldable pub remove_all_connections : Looper → Looper
unfolding tell_all
remove_all_connections l = record l {
  cbs = tell_all l.id_cb_map l.cbs;
  id_cb_map = [];
  cb_timer_map = [];
}

-- `none` is a loop that goes on: its counter is never counted down. `looks` are the tables that are
-- found, a second apart.
unfoldable pub wait_all_cb_done : ℕ → List (List (Str × Option ℕ)) → Option ℕ
wait_all_cb_done zero looks = some 0
wait_all_cb_done (suc timeout) [] = none
wait_all_cb_done (suc timeout) ([] ∷ looks) = some 0
wait_all_cb_done (suc timeout) ((x ∷ m) ∷ looks) = elim (wait_all_cb_done (suc timeout) looks) [
  | none ↦ none
  | some n ↦ some (suc n)
]
