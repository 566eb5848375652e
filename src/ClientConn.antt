-- ===== src/ClientConn.antt =====
-- A client's connection: sending requests and receiving responses, client/src/RpcClientConn.cpp.
-- Receiving goes by the script of the socket; sending goes by a script of rounds, each with the time
-- in seconds and what `send` meets.
pub mod Sending
pub mod Connect
pub mod Stale
pub mod Framing
pub mod Midway
pub mod Responses
mod Tests
use rpcframe.Prelude.{
  ℕ, ◌+◌, ◌-◌, ◌^◌, Bool, true, false, not, ◌&&◌, Option, none, some, List, [], ◌∷◌, ◌++◌, Str, u32,
  u64, be32, ntohl, length, take, drop, splice, min, ltb, ◌==◌, if◌then◌else◌, Exec, ret, waiting,
  fault, ◌>>=◌,
}
use rpcframe.Package.{
  PkgIoStatus, fail, partial, time_out, no_data, full, RpcStatus, send_ok, send_fail, send_timeout,
  ResponsePkg, Allocator, new_response, RpcType, one_way, two_way, InnerReq, Codec, rpcframe_ver,
  max_protobuf_data_len,
}
use rpcframe.Net.{
  Errno, eagain, eintr, is_again, Arrival, arrived, closed, interrupted, leftover, Room, room,
  refuse,
}

-- `m_rpk`: nullptr, a package that is being read, or one that was deleted.
pub data Rpk : Type 0 where
  null dangling : Rpk
  reading : ResponsePkg → Rpk

-- The descriptor is `none` for -1.
pub record ClientConn : Type 0 where
  pub fd : Option ℕ
  pub incoming : List Arrival
  pub wire : Str
  pub cur_left_len : ℕ  -- uint32_t
  pub cur_pkg_size : ℕ  -- uint32_t
  pub rpk : Rpk
  pub is_connected : Bool
  pub last_invalid_time : ℕ

-- The loop of `sendData`, from `sent_len` on.
unfoldable pub send_loop :
    Str → ℕ → ℕ → ℕ → ℕ → List (ℕ × Room) → ClientConn → Exec (RpcStatus × ClientConn)
send_loop bytes total begin timeout sent [] c = waiting
send_loop bytes total begin timeout sent ((now, room k) ∷ rs) c =
    let n = min (total - sent) (k + 1) in
    let c' = record c { wire = c.wire ++ take n (drop sent bytes) } in
    let again = send_loop bytes total begin timeout (sent + n) rs c' in
    if ltb 0 timeout && ltb timeout (now - begin)
    then ret (send_timeout, c)
    else (if n == 0
        then ret (send_fail, record c { is_connected = false })
        else if (sent + n) == total
        then ret (send_ok, c')
        else again)
send_loop bytes total begin timeout sent ((now, refuse e) ∷ rs) c =
    let again = send_loop bytes total begin timeout sent rs c in
    if ltb 0 timeout && ltb timeout (now - begin)
    then ret (send_timeout, c)
    else if is_again e
    then again
    else ret (send_fail, record c { is_connected = false })

unfoldable pub send_data :
    Str → ℕ → ℕ → ℕ → List (ℕ × Room) → ClientConn → Exec (RpcStatus × ClientConn)
unfolding send_loop
send_data bytes len timeout begin rs c = send_loop bytes (u32 len) begin timeout 0 rs c

-- User data of less than `max_protobuf_data_len` bytes travels inside the message.
abbrev pub has_blob : Str → Bool
has_blob d = not (ltb 0 (length d) && ltb (length d) max_protobuf_data_len)

abbrev pub request : Str → Str → Str → Str → Bool → ℕ → InnerReq
request service_name method_name d reqid is_oneway timeout = record {
  version = rpcframe_ver;
  service_name = service_name;
  method_name = method_name;
  request_id = reqid;
  rpc_type = if is_oneway then one_way else two_way;
  timeout = timeout;
  payload = if has_blob d then none else some d;
}

abbrev pub blob : Str → Str
blob d = if has_blob d then d else []

module _ (mem : Allocator) (proto : Codec InnerReq) where
  -- The buffer has four bytes more than are sent.
  abbrev pub send_parts :
      Str → ℕ → ℕ → ℕ → List (ℕ × Room) → Option Str → ClientConn → Exec (RpcStatus × ClientConn)
  send_parts d proto_len timeout begin rs none c = ret (send_fail, c)
  send_parts d proto_len timeout begin rs (some bs) c =
      let pkg_len = u64 (4 + proto_len + length (blob d)) in
      send_data (be32 pkg_len ++ (be32 proto_len ++ (bs ++ (blob d ++ mem.fresh 4)))) (pkg_len + 4)
        timeout begin rs c

  unfoldable pub send_req :
      Str
      → Str
      → Str
      → Str
      → Bool
      → ℕ
      → ℕ
      → List (ℕ × Room)
      → ClientConn
      → Exec (RpcStatus × ClientConn)
  unfolding send_data
  send_req service_name method_name d reqid is_oneway timeout begin rs c =
      let req = request service_name method_name d reqid is_oneway timeout in
      send_parts d (proto.byte_size req) timeout begin rs (proto.serialize req) c

-- The `recv` of `readPkgData`, into the package `p`.
unfoldable pub read_data : ResponsePkg → List Arrival → ClientConn → Exec (PkgIoStatus × ClientConn)
read_data p [] c = waiting
read_data p (closed ∷ evs) c = ret (fail, c)
read_data p (interrupted e ∷ evs) c =
    ret ((if is_again e then partial else fail), record c { incoming = evs })
read_data p (arrived b bs ∷ evs) c =
    let got = take c.cur_left_len (b ∷ bs) in
    let p' = record p { bytes = splice p.bytes (c.cur_pkg_size - c.cur_left_len) got } in
    let c' = record c { incoming = leftover c.cur_left_len (b ∷ bs) ++ evs; rpk = reading p' } in
    if length got == 0
    then ret (fail, c)
    else (if ltb (length p.bytes) (c.cur_pkg_size - c.cur_left_len + length got)
        then fault
        else (if length got == c.cur_left_len
            then ret (full, record c' { cur_left_len = 0; cur_pkg_size = 0 })
            else ret (partial, record c' { cur_left_len = c.cur_left_len - length got })))

unfoldable pub read_pkg_data : ClientConn → Exec (PkgIoStatus × ClientConn)
unfolding read_data
read_pkg_data c = elim c.rpk [
  | null ↦ ret (fail, c)
  | dangling ↦ if not c.is_connected then ret (fail, c) else fault
  | reading p ↦ if not c.is_connected then ret (fail, c) else read_data p c.incoming c
]

-- `pkg_ret_t`: (-1, nullptr), (0, nullptr) and (0, pkg).
pub data RespRet : Type 0 where
  failed pending : RespRet
  complete : ResponsePkg → RespRet

-- The loop of `readPkgLen`, on a socket that blocks: `word` is the word in memory. An interrupted
-- `recv` returns -1, which is added to `recved`; a later `recv` then writes in front of where it
-- should, before the word if nothing had come. (A `recv` that fills what is left ends the loop or is
-- a fault, so the rest of a chunk is needed only there.)
unfoldable pub read_len_loop : ℕ → Str → ℕ → ℕ → List Arrival → Exec (Bool × ℕ × List Arrival)
read_len_loop pkg_len word recved left [] = waiting
read_len_loop pkg_len word recved left (closed ∷ evs) = ret (false, pkg_len, closed ∷ evs)
read_len_loop pkg_len word recved left (interrupted e ∷ evs) =
    let again = read_len_loop pkg_len word (u32 (recved + 2 ^ 32 - 1)) (left + 1) evs in
    if is_again e then again else ret (false, pkg_len, evs)
read_len_loop pkg_len word recved left (arrived b bs ∷ evs) =
    let got = take left (b ∷ bs) in
    let word' = splice word recved got in
    let again = read_len_loop pkg_len word' (recved + length got) (left - length got) evs in
    if ltb 4 (recved + length got)
    then fault
    else (if (recved + length got) == 4
        then ret (true, ntohl word', leftover left (b ∷ bs) ++ evs)
        else again)

-- After `readPkgData`.
abbrev pub hand_over : Rpk → RespRet
hand_over (reading p) = complete p
hand_over p = pending

abbrev pub finish : PkgIoStatus × ClientConn → Exec (RespRet × ClientConn)
finish (fail, c) = ret (failed, c)
finish (partial, c) = ret (pending, c)
finish (st, c) = ret (hand_over c.rpk, record c { rpk = null })

module _ (mem : Allocator) where
  -- `data` is not initialised.
  unfoldable pub read_pkg_len : ClientConn → Exec (Bool × ℕ × List Arrival)
  unfolding read_len_loop
  read_pkg_len c =
      if not c.is_connected
      then ret (false, c.cur_pkg_size, c.incoming)
      else read_len_loop c.cur_pkg_size (mem.fresh 4) 0 4 c.incoming

  -- There is no limit on the size of a response.
  abbrev pub start_package : ClientConn → Bool × ℕ × List Arrival → Exec (RespRet × ClientConn)
  start_package c (false, size, evs) =
      ret (failed, record c { incoming = evs; cur_pkg_size = size })
  start_package c (true, size, evs) =
      let c' = record c { incoming = evs; cur_pkg_size = size } in
      if size == 0
      then ret (pending, c')
      else (read_pkg_data (record c' { rpk = reading (new_response mem size); cur_left_len = size })
          >>= finish)

  unfoldable pub get_response : ClientConn → Exec (RespRet × ClientConn)
  unfolding read_pkg_len read_pkg_data new_response
  get_response c =
      if c.cur_pkg_size == 0
      then (read_pkg_len c >>= start_package c)
      else (read_pkg_data c >>= finish)
