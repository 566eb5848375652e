-- ===== src/RpcConn.antt =====
-- Receiving requests in rpcframe's own protocol: server/src/RpcServerRpcConn.cpp.
-- The socket does not block, so a script in which no bytes are at hand says `interrupted eagain`.
pub mod Framing
pub mod Reading
pub mod Stream
pub mod Requests
pub mod Returns
pub mod Progress
pub mod Complete
mod Tests
use rpcframe.Prelude.{
  ℕ, ◌+◌, ◌-◌, Bool, true, false, not, Option, none, some, List, [], ◌∷◌, ◌++◌, Str, length, take,
  splice, ltb, ◌==◌, if◌then◌else◌, Exec, ret, waiting, fault, ◌>>=◌, ntohl,
}
use rpcframe.Package.{
  PkgIoStatus, fail, partial, no_data, full, time_out, RequestPkg, Allocator, new_request,
}
use rpcframe.Net.{
  Errno, clear, eagain, eintr, epipe, other, is_again, Arrival, arrived, closed, interrupted,
  leftover,
}
use rpcframe.ServerConn.{ServerConn}

-- `pkg_ret_t`: (-1, nullptr), (0, nullptr) and (0, pkg).
pub data PkgRet : Type 0 where
  failed pending : PkgRet
  complete : RequestPkg → PkgRet

-- The loop of `readPkgLen`: `data` is the word in memory and `left` the number of its bytes that are
-- missing. The result is what the method returns, `pkg_len` afterwards, and the rest of the script.
-- `left_size < 0` cannot be, since `recv` returns no more than it was asked for.
unfoldable pub read_len_loop : ℕ → Str → ℕ → List Arrival → Exec (Bool × ℕ × List Arrival)
read_len_loop pkg_len data_ptr left [] = waiting
read_len_loop pkg_len data_ptr left (closed ∷ evs) =
    if left == 0
    then ret (true, ntohl data_ptr, closed ∷ evs)
    else ret (false, pkg_len, closed ∷ evs)
read_len_loop pkg_len data_ptr left (interrupted e ∷ evs) =
    let again = read_len_loop pkg_len data_ptr left evs in
    if is_again e
    then (if left == 4 then ret (true, pkg_len, evs) else again)
    else ret (false, pkg_len, evs)
read_len_loop pkg_len data_ptr left (arrived b bs ∷ evs) =
    let got = take left (b ∷ bs) in
    let word = splice data_ptr (4 - left) got in
    let again = read_len_loop pkg_len word (left - length got) evs in
    if (left - length got) == 0
    then ret (true, ntohl word, leftover left (b ∷ bs) ++ evs)
    else again

abbrev pub zero_word : Str
zero_word = 0 ∷ 0 ∷ 0 ∷ 0 ∷ []

unfoldable pub read_pkg_len : ServerConn → Exec (Bool × ℕ × List Arrival)
unfolding read_len_loop
read_pkg_len c =
    if not c.is_connected
    then ret (false, c.cur_pkg_size, c.sock.incoming)
    else read_len_loop c.cur_pkg_size zero_word 4 c.sock.incoming

-- The connection with its socket read up to `evs`.
abbrev pub read_to : List Arrival → ServerConn → ServerConn
read_to evs c = record c { sock = record c.sock { incoming = evs } }

-- After `recv` delivered `got` for the package `p`.
abbrev pub filled : RequestPkg → Str → List Arrival → ServerConn → PkgIoStatus × ServerConn
filled p got evs c =
    let p' = record p { bytes = splice p.bytes (c.cur_pkg_size - c.cur_left_len) got } in
    let c' = record (read_to evs c) { rpk = some p' } in
    if length got == c.cur_left_len
    then (full, record c' { cur_left_len = 0; cur_pkg_size = 0 })
    else (partial, record c' { cur_left_len = c.cur_left_len - length got })

-- The loop of `readPkgData`. `errno` is the value that an earlier round left: `recv` does not set it
-- when it returns 0, so that after EINTR the loop would spin for ever, which `waiting` stands for. A
-- read past the end of the buffer is a fault.
unfoldable pub read_data_loop :
    RequestPkg → Errno → List Arrival → ServerConn → Exec (PkgIoStatus × ServerConn)
read_data_loop p errno [] c = waiting
read_data_loop p errno (closed ∷ evs) c =
    if not (c.cur_left_len == 0) then ret (fail, read_to (closed ∷ evs) c) else elim errno [
      | eagain ↦ ret (partial, read_to (closed ∷ evs) c)
      | eintr ↦ waiting
      | _ ↦ ret (fail, read_to (closed ∷ evs) c)
    ]
read_data_loop p errno (interrupted eagain ∷ evs) c = ret (partial, read_to evs c)
read_data_loop p errno (interrupted eintr ∷ evs) c = read_data_loop p eintr evs c
read_data_loop p errno (interrupted e ∷ evs) c = ret (fail, read_to evs c)
read_data_loop p errno (arrived b bs ∷ evs) c =
    let got = take c.cur_left_len (b ∷ bs) in
    let rest = leftover c.cur_left_len (b ∷ bs) ++ evs in
    if length got == 0
    then elim errno [
      | eagain ↦ ret (partial, read_to rest c)
      | eintr ↦ waiting
      | _ ↦ ret (fail, read_to rest c)
    ]
    else (if ltb (length p.bytes) (c.cur_pkg_size - c.cur_left_len + length got)
        then fault
        else ret (filled p got rest c))

unfoldable pub read_pkg_data : ServerConn → Exec (PkgIoStatus × ServerConn)
unfolding read_data_loop
read_pkg_data c = elim c.rpk [
  | none ↦ ret (fail, c)
  | some p ↦ if not c.is_connected then ret (fail, c) else read_data_loop p clear c.sock.incoming c
]

-- The end of `getRequest`: the package goes to the caller.
abbrev pub hand_over : Option RequestPkg → PkgRet
hand_over none = pending
hand_over (some p) = complete p

abbrev pub finish : PkgIoStatus × ServerConn → Exec (PkgRet × ServerConn)
finish (fail, c) = ret (failed, c)
finish (partial, c) = ret (pending, c)
finish (st, c) = ret (hand_over c.rpk, record c { rpk = none })

unfoldable pub read_body : ServerConn → Exec (PkgRet × ServerConn)
unfolding read_pkg_data
read_body c = read_pkg_data c >>= finish

module _ (mem : Allocator) where
  -- After `readPkgLen` with the result and `m_cur_pkg_size` that it left. (`new` does not return
  -- nullptr.)
  abbrev pub start_package : ServerConn → Bool × ℕ × List Arrival → Exec (PkgRet × ServerConn)
  start_package c (false, size, evs) = ret (failed, record (read_to evs c) { cur_pkg_size = size })
  start_package c (true, size, evs) =
      let c' = record (read_to evs c) { cur_pkg_size = size } in
      if size == 0
      then ret (pending, c')
      else (if ltb c.max_req_limit size
          then ret (failed, c')
          else read_body
              (record c' { rpk = some (new_request mem size c.seqid); cur_left_len = size }))

  unfoldable pub get_request : ServerConn → Exec (PkgRet × ServerConn)
  unfolding read_pkg_len read_body new_request
  get_request c = if c.cur_pkg_size == 0 then read_pkg_len c >>= start_package c else read_body c
