-- ===== src/Looper/Send.antt =====
-- Sending a request: GenReqID and sendReq of client/src/RpcEventLooper.cpp.
-- The process, the thread, the clock and what `send` meets are given. The clock stands still during a
-- call of `sendReq` but for the rounds of `send`, which have their own times.
use rpcframe.Prelude.{
  ℕ, ◌+◌, ◌>>=◌, Bool, true, false, Option, none, some, List, [], ◌∷◌, ◌++◌, Str, codes, u32,
  length, find, assign, emplace, erase, ltb, to_string, get_elem?, if◌then◌else◌, Exec, ret, fault,
}
use rpcframe.Package.{
  RpcStatus, send_ok, send_fail, req_too_large, Allocator, InnerReq, Codec, RpcStatus,
}
use rpcframe.Net.{Room, refuse, other}
use rpcframe.CallBack.{CallBack, set_req_id}
use rpcframe.ClientConn
use rpcframe.ClientConn.{ClientConn}
use rpcframe.Looper.{Looper, tell, modify, insert_timer, erase_timers}
use rpcframe.Looper.Conns.{Dial, try_get_avaliable_conn}

-- The caller.
pub record Caller : Type 0 where
  pub pid : ℕ
  pub thread_id : Str  -- as it is printed
  pub now : ℕ
  pub rounds : List (ℕ × Room)

-- An `int` that is at least -1.
abbrev pub print_fd : Option ℕ → Str
print_fd none = codes "-1"
print_fd (some fd) = to_string fd

unfoldable pub gen_req_id : Caller → Option ℕ → Str → ℕ → Str
unfolding to_string
gen_req_id who fd host_ip seqid =
    to_string who.pid
    ++ (codes "_"
        ++ (who.thread_id
            ++ (codes "_"
                ++ (print_fd fd
                    ++ (codes "_"
                        ++ (to_string who.now
                            ++ (codes "_" ++ (host_ip ++ (codes "_" ++ to_string seqid)))))))))

-- `cb_obj->getTimeout()`
abbrev pub timeout_of : Option CallBack → ℕ
timeout_of none = 0
timeout_of (some cb) = cb.timeout

-- The callback is told its id and put into the tables.
unfoldable pub register : Option ℕ → Str → ℕ → ℕ → Looper → Looper
unfolding set_req_id emplace insert_timer
register none id cb_timeout now l = l
register (some i) id cb_timeout now l =
    let timers = insert_timer (now + cb_timeout) id l.cb_timer_map in
    record l {
      cbs = modify i (set_req_id id) l.cbs;
      id_cb_map = emplace id (some i) l.id_cb_map;
      cb_timer_map = if ltb 0 cb_timeout then timers else l.cb_timer_map;
    }

-- After a send that failed.
unfoldable pub withdraw : RpcStatus → Option ℕ → Str → ℕ → ℕ → Looper → Looper
unfolding tell erase erase_timers
withdraw st none id cb_timeout now l = l
withdraw st (some i) id cb_timeout now l =
    let timers = erase_timers (now + cb_timeout) l.cb_timer_map in
    record l {
      cbs = tell st (some i) l.cbs;
      id_cb_map = erase id l.id_cb_map;
      cb_timer_map = if ltb 0 cb_timeout then timers else l.cb_timer_map;
    }

abbrev pub is_null : Option ℕ → Bool
is_null none = true
is_null (some i) = false

abbrev pub is_sent : RpcStatus → Bool
is_sent send_ok = true
is_sent st = false

-- `send` on the descriptor -1 fails.
abbrev pub rounds_on : Option ℕ → Caller → List (ℕ × Room)
rounds_on none who = (who.now, refuse other) ∷ []
rounds_on (some fd) who = who.rounds

module _ (mem : Allocator) (proto : Codec InnerReq) where
  abbrev pub sent :
      Option ℕ → Str → Str → ℕ → ℕ → Looper → RpcStatus × ClientConn → RpcStatus × Str × Looper
  sent cb id ep cb_timeout now l (st, c) =
      let l' = record l {
        req_seqid = u32 (l.req_seqid + 1);
        ep_conn_map = assign ep c l.ep_conn_map;
      } in
      (st, id, (if is_sent st then l' else withdraw st cb id cb_timeout now l'))

  -- With the connection, once it is chosen.
  unfoldable pub send_on :
      Caller
      → Str
      → Str
      → Str
      → Option ℕ
      → Str
      → Option ClientConn
      → Looper
      → Exec (RpcStatus × Str × Looper)
  unfolding gen_req_id register withdraw assign ClientConn.send_req
  send_on who service_name method_name d cb ep none l = fault
  send_on who service_name method_name d cb ep (some c) l =
      let id = gen_req_id who c.fd l.host_ip l.req_seqid in
      let cb_timeout = timeout_of (elim cb [ none ↦ none | some i ↦ get_elem? l.cbs i ]) in
      let l' = register cb id cb_timeout who.now l in
      ClientConn.send_req mem proto service_name method_name d id (is_null cb) cb_timeout who.now
        (rounds_on c.fd who) c
      >>= λ r. ret (sent cb id ep cb_timeout who.now l' r)

  -- The id is written only when there is a connection.
  abbrev pub send_with :
      Caller
      → Str
      → Str
      → Str
      → Option ℕ
      → Str
      → Option Str × Looper
      → Exec (RpcStatus × Str × Looper)
  send_with who service_name method_name d cb id (none, l) =
      ret (send_fail, id, record l { cbs = tell send_fail cb l.cbs })
  send_with who service_name method_name d cb id (some ep, l) =
      send_on who service_name method_name d cb ep (find ep l.ep_conn_map) l

  unfoldable pub send_req :
      Caller
      → (Str → Dial)
      → Str
      → Str
      → Str
      → Option ℕ
      → Str
      → Looper
      → Exec (RpcStatus × Str × Looper)
  unfolding try_get_avaliable_conn send_on find tell
  send_req who dial service_name method_name d cb id l =
      if ltb l.max_req_size (length d)
      then ret (req_too_large, id, l)
      else (try_get_avaliable_conn who.now dial l
          >>= send_with who service_name method_name d cb id)
