-- ===== src/CallBack/Tests.antt =====
-- Callbacks that are told more than once.
use rpcframe.Prelude.{
  true, ◌++◌, ret, ℕ, ◌≡◌, refl, [], ◌∷◌, some, none, false, take, codes, Str, List,
}
use rpcframe.Package.{cb_timeout, status_code}
use rpcframe.CallBack.{Blocker, callback_safe, timed_out, CallBack, make, make_blocker, wait, woken}
use rpcframe.CallBack.Once.{tell, called_once, wait_lem}

-- A response, then a timeout.
abbrev answers : List (ℕ × Str)
answers = (8, codes "hi") ∷ (5, []) ∷ []

-- The constructor.
abbrev waiting_call : CallBack
waiting_call = record {
  type_mark = [];
  timeout = 3;
  reqid = codes "1";
  has_timeout = false;
  is_done = false;
  is_shared = false;
  blocker = some (record { done = false; resp_data = []; cb_st = none });
  calls = [];
}

called_once_example :
    ((tell answers waiting_call).calls ≡ (8, codes "hi") ∷ [])
    × ((tell answers waiting_call).blocker ≡ (tell (take 1 answers) waiting_call).blocker)
called_once_example = called_once answers waiting_call refl refl

abbrev silent : Blocker
silent = record { done = false; resp_data = []; cb_st = none }

abbrev answered : Blocker
answered = record { done = true; resp_data = codes "hi"; cb_st = some 8 }

silent_first : (tell [] (make_blocker 3)).blocker ≡ some silent
unfolding make_blocker make
silent_first = refl

answered_then : (tell ([] ++ answers) (make_blocker 3)).blocker ≡ some answered
unfolding make_blocker make callback_safe
answered_then = refl

wait_lem_example :
    (wait silent (some (woken answered)) ≡ ret (8, codes "hi"))
    × (wait silent (some (timed_out answered)) ≡ ret (status_code cb_timeout, codes "hi"))
wait_lem_example = wait_lem 3 [] answers silent answered silent_first answered_then
