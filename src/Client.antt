-- ===== src/Client.antt =====
-- The client that a program uses: RpcClient and RpcClientConfig of client/src/RpcClient.cpp.
-- A `protobuf` message is a request by the string that it serializes to, so `call` and `async_call` of
-- messages are those of strings. Of the configuration, the event loop keeps the endpoints and the
-- limit, which it reads there.
pub mod Calls
mod Tests
use rpcframe.Prelude.{
  ℕ, suc, ◌*◌, Bool, true, false, Option, none, some, List, [], ◌∷◌, ◌++◌, Str, length, get_elem?,
  ltb, if◌then◌else◌, Exec, ret, waiting, fault, ◌>>=◌,
}
use rpcframe.Package.{RpcStatus, status_code, ResponsePkg, Allocator, InnerReq, Codec}
use rpcframe.ThreadPool
use rpcframe.ThreadPool.{ThreadPool}
use rpcframe.CallBack.{CallBack, Blocker, Wake, timed_out, woken, make_blocker, set_timeout, wait}
use rpcframe.Looper.{Looper, modify, remove_cb, wait_all_cb_done}
use rpcframe.Looper.Conns
use rpcframe.Looper.Conns.{Dial, refresh_endpoints}
use rpcframe.Looper.Send.{Caller, send_req, is_sent}
use rpcframe.Looper.Poll

pub record Config : Type 0 where
  pub thread_num : ℕ  -- uint32_t
  pub connect_timeout : ℕ
  pub max_req_size : ℕ  -- uint32_t
  pub eps : List Str

unfoldable pub make_config : List Str → Config
make_config eps = record {
  thread_num = 1;
  connect_timeout = 1;
  max_req_size = 1024 * 1024 * 128;
  eps = eps;
}

unfoldable pub set_thread_num : ℕ → Config → Config
set_thread_num n cfg = if ltb 0 n then record cfg { thread_num = n } else cfg

unfoldable pub set_max_req_pkg_size : ℕ → Config → Config
set_max_req_pkg_size n cfg = record cfg { max_req_size = n }

unfoldable pub get_thread_num : Config → ℕ
get_thread_num cfg = cfg.thread_num

pub record Client (W : Type 0) : Type 0 where
  pub service_name : Str
  pub ev : Looper
  pub workers : ThreadPool ResponsePkg W

module _ {W : Type 0} where
  -- `w` is a new RpcClientWorker; the program's callbacks are there before the client is.
  unfoldable pub make : ℕ → (Str → Dial) → Str → W → Config → Str → List CallBack → Client W
  unfolding Conns.make ThreadPool.make get_thread_num
  make now dial host_ip w cfg service_name cbs = record {
    service_name = service_name;
    ev = Conns.make now dial cfg.eps cfg.max_req_size host_ip cbs;
    workers = ThreadPool.make (get_thread_num cfg) w;
  }

  -- The destructor, which then waits for the event loop to end.
  unfoldable pub close : Client W → Client W
  unfolding Poll.stop
  close c = record c { ev = Poll.stop c.ev }

  unfoldable pub reload_endpoints : ℕ → (Str → Dial) → List Str → Client W → Client W
  unfolding refresh_endpoints
  reload_endpoints now dial eps c = record c {
    ev = refresh_endpoints now dial eps (record c.ev { eps = eps });
  }

  unfoldable pub wait_all : ℕ → List (List (Str × Option ℕ)) → Client W → Option ℕ
  unfolding wait_all_cb_done
  wait_all timeout looks c = wait_all_cb_done timeout looks

-- What the other threads do while the caller waits: the event loop's state when `wait` has the
-- blocker's lock, and, if `wait_for` ends, how it does and the state then.
pub record Meanwhile : Type 0 where
  pub before : Looper → Looper
  pub ends : Option Bool  -- whether by a timeout
  pub after : Looper → Looper

abbrev pub blocker_at : ℕ → Looper → Option Blocker
blocker_at i l = elim (get_elem? l.cbs i) [ none ↦ none | some cb ↦ cb.blocker ]

abbrev pub wake : Option Bool → Option Blocker → Option Wake
wake none b = none
wake (some late) none = none
wake (some late) (some b) = some (if late then timed_out b else woken b)

abbrev pub wait_at : Option Blocker → Option Wake → Exec (ℕ × Str)
wait_at none w = fault
wait_at (some b) w = wait b w

-- The call was sent, as `id`; `i` is the place of its blocker.
abbrev pub wait_for : Meanwhile → ℕ → Str → Looper → Exec (ℕ × Str × Looper)
wait_for others i id l =
    let l1 = others.before l in
    let l2 = others.after l1 in
    wait_at (blocker_at i l1) (wake others.ends (blocker_at i l2)) >>= λ r.
    ret (r.0, r.1, remove_cb id l2)

abbrev pub after_send : Meanwhile → ℕ → Str → RpcStatus × Str × Looper → Exec (ℕ × Str × Looper)
after_send others i out (st, id, l) =
    let waited = wait_for others i id l in
    if is_sent st then waited else ret (status_code st, out, remove_cb id l)

module _ (mem : Allocator) (proto : Codec InnerReq) where
  -- The result is the status, `response_data` (which held `out` before), and the event loop.
  unfoldable pub call :
      Caller
      → (Str → Dial)
      → Meanwhile
      → Str
      → Str
      → Str
      → Str
      → ℕ
      → Looper
      → Exec (ℕ × Str × Looper)
  unfolding make_blocker send_req wait remove_cb status_code
  call who dial others service_name method_name request_data out timeout l =
      send_req mem proto who dial service_name method_name request_data (some (length l.cbs)) []
        (record l { cbs = l.cbs ++ (make_blocker timeout ∷ []) })
      >>= after_send others (length l.cbs) out

  abbrev pub with_timeout : ℕ → Option ℕ → Looper → Looper
  with_timeout timeout none l = l
  with_timeout timeout (some i) l = record l { cbs = modify i (set_timeout timeout) l.cbs }

  unfoldable pub async_call :
      Caller
      → (Str → Dial)
      → Str
      → Str
      → Str
      → ℕ
      → Option ℕ
      → Looper
      → Exec (RpcStatus × Str × Looper)
  unfolding set_timeout send_req
  async_call who dial service_name method_name request_data timeout cb_obj l =
      send_req mem proto who dial service_name method_name request_data cb_obj []
        (with_timeout timeout cb_obj l)
