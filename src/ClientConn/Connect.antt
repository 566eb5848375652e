-- ===== src/ClientConn/Connect.antt =====
-- Connecting, and giving a connection up: connect, connectHost, noBlockConnect, setInvalid, isValid and
-- shouldRetry of client/src/RpcClientConn.cpp. What the system answers is a script; the calls of `close`
-- are logged, with the descriptor.
use rpcframe.Prelude.{
  ℕ, ◌-◌, Bool, true, false, Option, none, some, List, [], ◌∷◌, ◌++◌, ltb, if◌then◌else◌,
}
use rpcframe.Net.{other, Arrival, interrupted}
use rpcframe.ClientConn.{ClientConn, Rpk, null, dangling}

-- The answers to `connect` and, where it is under way, to `select` and `getsockopt`.
pub data Answer : Type 0 where
  at_once : Answer  -- connected
  not_in_progress : Answer
  timed_out : Answer
  select_failed : Bool → Option ℕ → Answer  -- whether the descriptor is in the set, and as below
  ready : Option ℕ → Answer  -- the value of SO_ERROR; `none` where `getsockopt` fails

-- An address of the host: `socket` fails, or it gives a descriptor and `connect` an answer.
pub data Attempt : Type 0 where
  no_socket : Attempt
  tries : ℕ → Answer → Attempt

abbrev pub is_zero : Option ℕ → Bool
is_zero none = false
is_zero (some e) = if ltb 0 e then false else true

-- Whether `noBlockConnect` does not return -1, and the calls of `close`.
abbrev pub so_error : ℕ → Option ℕ → Bool × List ℕ
so_error fd e = if is_zero e then (true, []) else (false, fd ∷ [])

unfoldable pub no_block_connect : ℕ → Answer → Bool × List ℕ
no_block_connect fd at_once = (true, [])
no_block_connect fd not_in_progress = (false, fd ∷ [])
no_block_connect fd timed_out = (false, fd ∷ [])
no_block_connect fd (select_failed true e) = so_error fd e
no_block_connect fd (select_failed false e) = (false, fd ∷ [])
no_block_connect fd (ready e) = so_error fd e

-- `connectHost` over the addresses that `getaddrinfo` gave: the descriptor, and the calls of `close`.
unfoldable pub connect_addrs : List Attempt → Option ℕ × List ℕ
unfolding no_block_connect
connect_addrs [] = (none, [])
connect_addrs (no_socket ∷ as') = connect_addrs as'
connect_addrs (tries fd a ∷ as') =
    let (ok, closed) = no_block_connect fd a in
    let (later, closed') = connect_addrs as' in
    if ok then (some fd, closed) else (later, closed ++ (fd ∷ closed'))

-- `none` where `getaddrinfo` fails.
unfoldable pub connect_host : Option (List Attempt) → Option ℕ × List ℕ
unfolding connect_addrs
connect_host none = (none, [])
connect_host (some as') = connect_addrs as'

abbrev pub is_minus_one : Option ℕ → Bool
is_minus_one none = true
is_minus_one (some n) = false

-- A connection over a new socket, which will bring `incoming`. `is_connected`, `m_rpk` and the sizes
-- stay as they are.
abbrev pub connected : ℕ → List Arrival → ClientConn → ClientConn
connected fd incoming c = record c { fd = some fd; incoming = incoming; wire = [] }

abbrev pub after_dial : ℕ → List Arrival → Option ℕ × List ℕ → ClientConn → Bool × ClientConn
after_dial now incoming (none, closes) c = (false, record c { fd = none; last_invalid_time = now })
after_dial now incoming (some fd, closes) c = (true, connected fd incoming c)

unfoldable pub connect : ℕ → Option (List Attempt) → List Arrival → ClientConn → Bool × ClientConn
unfolding connect_host
connect now host incoming c =
    if is_minus_one c.fd then after_dial now incoming (connect_host host) c else (true, c)

abbrev pub delete_rpk : Rpk → Rpk
delete_rpk null = null
delete_rpk p = dangling

-- (A package that was deleted before is deleted again.)
unfoldable pub set_invalid : ℕ → ClientConn → ClientConn
set_invalid now c = record c {
  rpk = delete_rpk c.rpk;
  fd = none;
  incoming = interrupted other ∷ [];
  last_invalid_time = now;
}

unfoldable pub is_valid : ClientConn → Bool
is_valid c = elim c.fd [ none ↦ false | some n ↦ ltb 0 n ]

-- More than a minute after it was given up.
unfoldable pub should_retry : ℕ → ClientConn → Bool
should_retry now c = if is_minus_one c.fd then ltb 60 (now - c.last_invalid_time) else false
