-- ===== src/ClientConn/Tests.antt =====
-- Sending, on small inputs.
use rpcframe.ClientConn.Connect.{
  Attempt, tries, timed_out, ready, connect, connect_host, set_invalid,
}
use rpcframe.ClientConn.Stale.{reconnect_uses_freed, send_failure_is_final}
use rpcframe.Prelude.{
  false, Option, some, some, ◌≡◌, refl, Exec, ret, fault, ntohl, be32, ◌++◌, ℕ, true, List, [], ◌∷◌,
  Str, inl, inr, arith, Returns,
}
use rpcframe.Net.{eagain, eintr, arrived, interrupted, stream, Room, room, refuse}
use rpcframe.Samples.{zeros}
use rpcframe.ClientConn.{
  reading, failed, null, ClientConn, send_data, RespRet, complete, get_response, read_pkg_len,
}
use rpcframe.ClientConn.Midway.{Delivers, next_response}
use rpcframe.ClientConn.Responses.{next_response-Delivers}
use rpcframe.ClientConn.Sending.{Outcome, send_data_lem}

abbrev pub fresh_conn : ClientConn
fresh_conn = record {
  fd = some 5;
  incoming = [];
  wire = [];
  cur_left_len = 0;
  cur_pkg_size = 0;
  rpk = null;
  is_connected = true;
  last_invalid_time = 0;
}

-- Two bytes, a full buffer, and the rest.
abbrev pub rounds : List (ℕ × Room)
rounds = (10, room 1) ∷ (10, refuse eagain) ∷ (11, room 99) ∷ []

abbrev bytes : Str
bytes = 1 ∷ 2 ∷ 3 ∷ 4 ∷ 5 ∷ []

send_data_lem_example :
    Returns (Outcome [] (1 ∷ 2 ∷ 3 ∷ 4 ∷ [])) (send_data bytes 4 5 10 rounds fresh_conn)
send_data_lem_example =
    send_data_lem bytes 4 5 10 rounds fresh_conn (omega arith) (omega arith) (omega arith)
      (inr (inl (omega arith)))

-- Two responses, the first cut up in its header and in its data.
abbrev receiving : ClientConn
receiving = record fresh_conn {
  incoming = arrived 0 (0 ∷ 0 ∷ []) ∷ arrived 2 (8 ∷ []) ∷ arrived 9 (0 ∷ 0 ∷ 0 ∷ 0 ∷ []) ∷ [];
}

body_of : Exec (RespRet × ClientConn) → Str
body_of (ret (complete p, c)) = p.bytes
body_of _ = []

conn_of : Exec (RespRet × ClientConn) → ClientConn
conn_of (ret (r, c)) = c
conn_of _ = receiving

get_response-twice :
    body_of (get_response zeros (conn_of (get_response zeros receiving))) ≡ 8 ∷ 9 ∷ []
unfolding body_of conn_of get_response ntohl
get_response-twice = refl

receiving_sends : stream receiving.incoming ≡ be32 2 ++ ((8 ∷ 9 ∷ []) ++ (0 ∷ 0 ∷ 0 ∷ 0 ∷ []))
unfolding be32
receiving_sends = refl

next_response-Delivers_example :
    Delivers (8 ∷ 9 ∷ []) (0 ∷ 0 ∷ 0 ∷ 0 ∷ []) (next_response zeros 3 receiving)
next_response-Delivers_example =
    next_response-Delivers zeros receiving (8 ∷ 9 ∷ []) (0 ∷ 0 ∷ 0 ∷ 0 ∷ []) 2 (refl, refl) tt
      (omega arith) (omega arith) receiving_sends (omega arith)

-- Interrupted before the first byte, `readPkgLen` writes in front of the word.
read_pkg_len-interrupted :
    read_pkg_len zeros
      (record fresh_conn { incoming = interrupted eintr ∷ arrived 0 (0 ∷ 0 ∷ 1 ∷ []) ∷ [] })
    ≡ fault
unfolding read_pkg_len
read_pkg_len-interrupted = refl

-- Two of nine bytes of a response have come.
abbrev half_read : ClientConn
half_read = record fresh_conn {
  cur_left_len = 7;
  cur_pkg_size = 9;
  rpk =
      reading
        (record { bytes = 1 ∷ 2 ∷ 0 ∷ 0 ∷ 0 ∷ 0 ∷ 0 ∷ 0 ∷ 0 ∷ []; data_len = 9; gen_time = 0 });
}

-- The first address does not answer, the second one does.
abbrev addresses : Option (List Attempt)
addresses = some (tries 6 timed_out ∷ tries 7 (ready (some 0)) ∷ [])

dialed : (connect_host addresses).0 ≡ some 7
unfolding connect_host
dialed = refl

reconnect_uses_freed_example :
    get_response zeros (connect 90 addresses (arrived 3 [] ∷ []) (set_invalid 20 half_read)).1
    ≡ fault
reconnect_uses_freed_example =
    reconnect_uses_freed zeros half_read
      (record { bytes = 1 ∷ 2 ∷ 0 ∷ 0 ∷ 0 ∷ 0 ∷ 0 ∷ 0 ∷ 0 ∷ []; data_len = 9; gen_time = 0 }) 20 90
      7 addresses (arrived 3 [] ∷ []) refl (omega arith) refl dialed

abbrev broken : ClientConn
broken = record fresh_conn { is_connected = false }

send_failure_is_final_example :
    (c' : ClientConn) × (get_response zeros
        (connect 90 addresses (arrived 3 [] ∷ []) (set_invalid 20 broken)).1
      ≡ ret (failed, c'))
send_failure_is_final_example =
    send_failure_is_final zeros broken 20 90 addresses (arrived 3 [] ∷ []) refl
