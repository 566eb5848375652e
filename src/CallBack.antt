-- ===== src/CallBack.antt =====
-- The callbacks of a client's calls: RpcClientCallBack of client/src/RpcClient.cpp and its subclass
-- RpcClientBlocker of client/include/RpcClientBlocker.h.
-- The virtual method `callback` is logged, and a blocker's is run. A status is its number, since the
-- one that a response carries is cast to the enumeration unseen.
pub mod Once
mod Tests
use rpcframe.Prelude.{
  ℕ, Bool, true, false, Option, none, some, List, [], ◌∷◌, ◌++◌, Str, codes, if◌then◌else◌, Exec,
  ret, waiting, fault, ◌>>=◌,
}
use rpcframe.Package.{RpcStatus, cb_timeout, status_code}

-- `m_cb_st` is not initialised.
pub record Blocker : Type 0 where
  pub done : Bool
  pub resp_data : Str
  pub cb_st : Option ℕ

-- `blocker` is `none` for the user's classes.
pub record CallBack : Type 0 where
  pub type_mark : Str
  pub timeout : ℕ  -- uint32_t, in seconds
  pub reqid : Str
  pub has_timeout : Bool
  pub is_done : Bool
  pub is_shared : Bool
  pub blocker : Option Blocker
  pub calls : List (ℕ × Str)

unfoldable pub make : CallBack
make = record {
  type_mark = [];
  timeout = 0;
  reqid = [];
  has_timeout = false;
  is_done = false;
  is_shared = false;
  blocker = none;
  calls = [];
}

unfoldable pub make_blocker : ℕ → CallBack
unfolding make
make_blocker timeout = record make {
  type_mark = codes "blocker";
  timeout = timeout;
  blocker = some (record { done = false; resp_data = []; cb_st = none });
}

-- `RpcClientBlocker::callback`.
abbrev pub unblock : ℕ → Str → Option Blocker → Option Blocker
unblock status resp_data none = none
unblock status resp_data (some b) =
    some (record { done = true; resp_data = resp_data; cb_st = some status })

unfoldable pub callback : ℕ → Str → CallBack → CallBack
callback status resp_data cb = record cb {
  blocker = unblock status resp_data cb.blocker;
  calls = cb.calls ++ ((status, resp_data) ∷ []);
}

unfoldable pub callback_safe : ℕ → Str → CallBack → CallBack
unfolding callback
callback_safe status resp_data cb =
    if cb.is_shared
    then callback status resp_data cb
    else if cb.is_done
    then cb
    else record (callback status resp_data cb) { is_done = true }

unfoldable pub set_type : Str → CallBack → CallBack
set_type t cb = record cb { type_mark = t }

unfoldable pub set_timeout : ℕ → CallBack → CallBack
set_timeout t cb = record cb { timeout = t }

unfoldable pub set_req_id : Str → CallBack → CallBack
set_req_id id cb = record cb { reqid = id }

unfoldable pub mark_timeout : CallBack → CallBack
mark_timeout cb = record cb { has_timeout = true }

unfoldable pub set_shared : Bool → CallBack → CallBack
set_shared b cb = record cb { is_shared = b }

-- How `wait_for` ends, with the blocker that is found then.
pub data Wake : Type 0 where
  timed_out : Blocker → Wake
  woken : Blocker → Wake

-- A status that was never set is read.
abbrev pub known : Option ℕ → Exec ℕ
known none = fault
known (some st) = ret st

abbrev pub result : Blocker → Exec (ℕ × Str)
result b = known b.cb_st >>= λ st. ret (st, b.resp_data)

-- `none` is a thread that is not woken.
unfoldable pub wait : Blocker → Option Wake → Exec (ℕ × Str)
unfolding status_code
wait b w = if b.done then result b else elim w [
  | none ↦ waiting
  | some (timed_out b') ↦ ret (status_code cb_timeout, b'.resp_data)
  | some (woken b') ↦ result b'
]
