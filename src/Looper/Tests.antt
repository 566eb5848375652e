-- ===== src/Looper/Tests.antt =====
-- The event loop with two calls.
use rpcframe.Prelude.{
  ℕ, ◌≡◌, ◌≢◌, refl, true, false, Option, none, some, List, [], ◌∷◌, Str, codes, find, str_eq,
  str_eq_iff, Returns, arith,
}
use rpcframe.Package.{ResponsePkg, send_fail}
use rpcframe.ThreadPool.{ThreadPool}
use rpcframe.Samples.{zeros}
use rpcframe.CallBack.{CallBack}
use rpcframe.ClientConn.{ClientConn}
use rpcframe.ClientConn.Connect.{is_valid}
use rpcframe.Looper.{Looper, deal_timeout_cb, get_cb, remove_cb}
use rpcframe.Looper.InTime.{Moves, here, sends, answers, looks, over_in_time}
use rpcframe.Looper.Expire.{deal_timeout_cb-overdue, time_out_calls, overdue}
use rpcframe.Looper.Conns.{Dial, new_conn, try_get_avaliable_conn}
use rpcframe.Looper.Poll.{Round, run, stop}
use rpcframe.Looper.ReqId.{gen_req_id-ne}
use rpcframe.Looper.Send.{Caller, gen_req_id, register, withdraw}
use rpcframe.Looper.Lost.{withdraw-drops_timers}
use rpcframe.Looper.Select.{AllHaveConns, IsUpIn, try_get_avaliable_conn-Up}

abbrev waiting_cb : ℕ → Str → CallBack
waiting_cb timeout id = record {
  type_mark = [];
  timeout = timeout;
  reqid = id;
  has_timeout = false;
  is_done = false;
  is_shared = false;
  blocker = none;
  calls = [];
}

abbrev first : Str
first = codes "a0"

abbrev second : Str
second = codes "a1"

-- The first endpoint's connection was given up, the second one's is up.
abbrev far : Str
far = 80 ∷ codes "a"

abbrev near : Str
near = 80 ∷ codes "b"

abbrev up : ClientConn
up = record new_conn { fd = some 5 }

abbrev down : ClientConn
down = record new_conn { last_invalid_time = 100 }

-- Two calls, whose times are over at 13.
abbrev loop : Looper
loop = record {
  stopped = false;
  eps = far ∷ near ∷ [];
  max_req_size = 100;
  ep_conn_map = (far, down) ∷ (near, up) ∷ [];
  cbs = waiting_cb 3 first ∷ waiting_cb 3 second ∷ [];
  id_cb_map = (first, some 0) ∷ (second, some 1) ∷ [];
  conn_cb_map = [];
  cb_timer_map = (13, first) ∷ (13, second) ∷ [];
  req_seqid = 2;
  host_ip = codes "h";
  watched = 5 ∷ [];
}

deal_timeout_cb-overdue_example :
    ((deal_timeout_cb (λ n. 14) loop).cbs, (deal_timeout_cb (λ n. 14) loop).id_cb_map)
    ≡ time_out_calls (overdue 14 loop.cb_timer_map) loop.cbs loop.id_cb_map
deal_timeout_cb-overdue_example = deal_timeout_cb-overdue 14 loop (omega arith, _)

first_pending : get_cb first loop ≡ some 0
unfolding get_cb str_eq
first_pending = refl

differ : second ≢ first
unfolding str_eq
differ e = ground (arith, str_eq_iff second first)

withdraw-drops_timers_example :
    get_cb first (deal_timeout_cb (λ n. 99) (withdraw send_fail (some 1) second 3 10 loop)) ≡ some 0
withdraw-drops_timers_example =
    withdraw-drops_timers send_fail 1 0 first second 3 10 (λ n. 99) loop (omega arith) differ
      first_pending ((λ e. refl), ((λ e. refl), _))

-- Neither host answers.
abbrev dial : Str → Dial
dial ep = record { host = none; incoming = [] }

near_valid : is_valid up ≡ true
unfolding is_valid
near_valid = refl

near_found : find near loop.ep_conn_map ≡ some up
unfolding find str_eq
near_found = refl

far_found : find far loop.ep_conn_map ≡ some down
unfolding find str_eq
far_found = refl

found : (o : Option ClientConn) (c : ClientConn) → o ≡ some c → o ≢ none
found none c h e = cc
found (some d) c h e = cc

all_found : AllHaveConns loop.eps loop.ep_conn_map
all_found = (found _ down far_found, (found _ up near_found, _))

try_get_avaliable_conn-Up_example : Returns IsUpIn (try_get_avaliable_conn 120 dial loop)
try_get_avaliable_conn-Up_example =
    try_get_avaliable_conn-Up 120 dial loop 1 near up all_found refl near_found near_valid

abbrev caller : Caller
caller = record { pid = 1; thread_id = codes "t"; now = 10; rounds = [] }

gen_req_id-ne_example :
    gen_req_id caller (some 5) (codes "h") 7 ≢ gen_req_id caller (some 5) (codes "h") 17
gen_req_id-ne_example =
    gen_req_id-ne caller caller (some 5) (some 5) (codes "h") (codes "h") 7 17 (λ e. omega arith)

abbrev pool : ThreadPool ResponsePkg ℕ
pool = record {
  task_q = record { items = []; max_q_len = 9; drop_old_on_full = false };
  worker_threads = [];
}

-- The connection breaks; then the loop is told to stop.
abbrev rounds : List Round
rounds =
    record {
      stop_first = false;
      stop_second = false;
      clock = λ n. 11;
      ready = record { conn = near; epollin = false } ∷ [];
      now = 11;
      others = λ n l. remove_cb second l;
    }
    ∷ record {
      stop_first = true;
      stop_second = false;
      clock = λ n. 12;
      ready = [];
      now = 12;
      others = λ n l. l;
    }
    ∷ []

-- The second call's caller takes it back while the loop waits; the first call is told at the end.
run-rounds :
    Returns
      (λ r. (get_cb second r.0 ≡ none) × (get_cb first r.0 ≡ none))
      (run zeros rounds loop pool)
unfolding run get_cb str_eq stop remove_cb
run-rounds = (refl, refl)

-- A third call is sent at 12 with four seconds, and a fourth; the first one is answered; and the loop
-- looks at the timers at 14.
abbrev third : Str
third = codes "a2"

abbrev moved : Looper
moved =
    deal_timeout_cb (λ n. 14)
      (remove_cb first (register (some 1) (codes "a3") 5 12 (register (some 0) third 4 12 loop)))

fourth_differs : codes "a3" ≢ third
unfolding str_eq
fourth_differs e = ground (arith, str_eq_iff (codes "a3") third)

moves : Moves third 16 (register (some 0) third 4 12 loop) moved
moves = sends (some 1) (codes "a3") 5 12 fourth_differs (answers first (looks (λ n. 14) here))

over_in_time_example : get_cb third (deal_timeout_cb (λ n. 17) moved) ≡ none
over_in_time_example =
    over_in_time 0 third 4 12 (λ n. 17) loop moved (omega arith) (omega arith) moves
      (λ n. omega arith)
