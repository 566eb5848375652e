-- ===== src/StatusService.antt =====
-- The service "status", which shows what the server counts: server/include/RpcStatusService.h.
-- The page is made of what the server and its statistics are at the time of the call.
pub mod Answer
pub mod Null
mod Tests
use rpcframe.Prelude.{
  ℕ, Bool, true, false, Option, none, some, List, [], ◌∷◌, ◌++◌, Str, codes, length, to_string,
  if◌then◌else◌, Exec, ret, waiting, fault, ◌>>=◌, find, assign,
}
use rpcframe.Package.{RpcStatus, server_ok, Allocator, InnerResp, Codec}
use rpcframe.Queue
use rpcframe.Stats.{Stats}
use rpcframe.Broker.{Broker, alloc_resp_buf_from}
use rpcframe.ConnWorker.{ConnWorker, dump_conn_ids}
use rpcframe.ThreadPool.{ThreadPool, get_workers, get_task_q_size}
use rpcframe.RpcWorker.{Handler, MethodStatus, Method, Service, ServiceBlock, Services, add_method}
use rpcframe.Server.{Server, Pool}

-- A method that is called without statistics.
abbrev pub disable : Option Method → Service → Service
disable none s = s
disable (some m) s =
    let st = m.status in
    assign (codes "get_status") (record m { status = record st { enabled = false } }) s

-- The constructor: `RPC_ADD_METHOD` allows HTTP.
unfoldable pub make : Handler → Service
unfolding add_method find assign
make get_status =
    let s = add_method (codes "get_status") get_status true [] in
    disable (find (codes "get_status") s) s

abbrev pub h3 : Str → Str → Str
h3 label value = codes "<h3>" ++ (label ++ (value ++ codes "</h3>"))

abbrev pub count : Str → ℕ → Str
count label n = h3 label (to_string n)

abbrev pub millis : Str → ℕ → Str
millis label n = h3 label (to_string n ++ codes "ms")

-- A line of a method's statistics.
abbrev pub line : Str → Str → Str
line label value = codes "&nbsp;&nbsp;&nbsp;&nbsp;" ++ (label ++ (value ++ codes "</br>"))

unfoldable pub show_status : MethodStatus → Str
unfolding to_string
show_status st =
    if st.enabled
    then line (codes "Total Call num:") (to_string st.total_call_nums)
      ++ (line (codes "Timeout Call num:") (to_string st.timeout_call_nums)
          ++ (line (codes "Avg Call time:") (to_string st.avg_call_time ++ codes "ms")
              ++ (line (codes "Longest Call time:") (to_string st.longest_call_time ++ codes "ms")
                  ++ line (codes "Call from http num:") (to_string st.call_from_http_num))))
    else line (codes "Method statistic disabled") []

unfoldable pub show_methods : Service → Str
unfolding show_status
show_methods [] = []
show_methods ((name, m) ∷ s) =
    h3 (codes "&nbsp;&nbsp;method name:") name ++ (show_status m.status ++ show_methods s)

-- A block without a service is read through nullptr.
unfoldable pub show_services : Services → Exec Str
unfolding show_methods
show_services [] = ret []
show_services ((name, b) ∷ m) = show_services m >>= λ rest. elim b.srv [
  | none ↦ fault
  | some s ↦
      ret (codes "<h2>&nbsp;service name:" ++ (name ++ (codes "</h2>" ++ (show_methods s ++ rest))))
]

unfoldable pub show_conns : List Str → Str
show_conns [] = []
show_conns (id ∷ ids) =
    codes "&nbsp;&nbsp;&nbsp;conn id:" ++ (id ++ (codes "</br>" ++ show_conns ids))

unfoldable pub show_workers : List ConnWorker → Str
unfolding dump_conn_ids show_conns
show_workers [] = []
show_workers (w ∷ ws) =
    codes "&nbsp;&nbsp;conn worker:"
    ++ (w.name ++ (codes "</br>" ++ (show_conns (dump_conn_ids w []) ++ show_workers ws)))

-- An `int` that is at least -1.
abbrev pub print_int : Option ℕ → Str
print_int none = codes "-1"
print_int (some n) = to_string n

abbrev pub running : Bool → ℕ
running true = 0
running false = 1

abbrev pub concat : List Str → Str
concat [] = []
concat (s ∷ ss) = s ++ concat ss

-- Up to the services.
unfoldable pub server_part : ℕ → Server → Pool → Stats → Str
unfolding to_string show_workers get_task_q_size Queue.size
server_part pid s p st = concat (
    codes "<html><body><h1>Server Status:<h1>"
    ∷ count (codes "Pid:") pid
    ∷ count (codes "Running:") (running s.stopped)
    ∷ count (codes "Worker num:") s.cfg.thread_num
    ∷ count (codes "Conn Worker num:") (length s.rpcconnworker)
    ∷ count (codes "Max conn limit:") s.cfg.max_conn_num
    ∷ count (codes "Rejected conn num:") st.rejected_conn
    ∷ show_workers s.rpcconnworker
    ∷ count (codes "Current conn num:") st.conn_num
    ∷ count (codes "Req Q size:") (get_task_q_size p)
    ∷ count (codes "Req InQueue fail num:") st.req_inqueue_fail
    ∷ count (codes "Resp Q size:") (Queue.size s.response_q)
    ∷ count (codes "Resp InQueue fail num:") st.resp_inqueue_fail
    ∷ count (codes "Total Req num:") st.total_req_num
    ∷ count (codes "Total Resp num:") st.total_resp_num
    ∷ count (codes "Total Call num:") st.total_call_num
    ∷ millis (codes "Avg Req wait time:") st.avg_req_wait_time
    ∷ millis (codes "Avg Resp wait time:") st.avg_resp_wait_time
    ∷ millis (codes "Avg Call time:") st.avg_call_time
    ∷ millis (codes "Longest Call time:") st.max_call_time
    ∷ h3 (codes "Rpc listening on port:")
        (to_string s.cfg.port ++ (codes " fd:" ++ print_int s.rpclisten))
    ∷ codes "<h1>Service Status</h1>"
    ∷ [])

-- `real_workers[0]`, of the workers' services; there may be none.
abbrev pub services_part : List Services → Exec Str
services_part [] = fault
services_part (m ∷ ms) = show_services m

unfoldable pub page : ℕ → Server → Stats → Exec Str
unfolding server_part show_services get_workers
page pid s st = elim s.worker_thread_pool [
  | none ↦ fault
  | some p ↦ services_part (get_workers p) >>= λ srv.
      ret (server_part pid s p st ++ (srv ++ codes "</br></body></html>"))
]

module _ (mem : Allocator) (proto : Codec InnerResp) where
  unfoldable pub get_status : ℕ → Server → Stats → Broker → Exec (RpcStatus × Broker)
  unfolding page alloc_resp_buf_from
  get_status pid s st b = do
    resp_data ← if b.from_http then page pid s st else ret []
    (at, b') ← alloc_resp_buf_from mem proto resp_data b
    ret (server_ok, b')
