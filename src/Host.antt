-- ===== src/Host.antt =====
-- Finding the address of a host, and the log: common/src/util.cpp.
-- `lookup` is `gethostbyname_r` on the name, by the size of the buffer that it is given, and `alloc`
-- says whether memory of a size can be had. `blocks` counts what was allocated and not yet freed.
pub mod Lookup
pub mod Log
mod Tests
use rpcframe.Prelude.{
  ℕ, zero, suc, ◌+◌, ◌-◌, ◌*◌, ◌^◌, Bool, true, false, Option, none, some, List, [], ◌∷◌, ◌++◌, Str,
  codes, length, take, leb, ltb, if◌then◌else◌, Exec, ret, waiting, fault, ◌>>=◌, to_string,
}

-- ERANGE; another error or no result; or the first address, which `inet_ntoa` may fail to print.
pub data Answer : Type 0 where
  too_small : Answer
  failed : Answer
  found : Option Str → Answer

-- What the function returns, `str_ip` afterwards, and the blocks that are left.
abbrev pub Result : Type 0
Result = Bool × Str × ℕ

abbrev pub free : ℕ → ℕ
free blocks = blocks - 1

-- After the loop.
abbrev pub looked_up : Str → ℕ → Answer → Exec Result
looked_up str_ip blocks (found (some ip)) = ret (true, ip, free blocks)
looked_up str_ip blocks _ = ret (false, str_ip, free blocks)

module _ (alloc : ℕ → Bool) (lookup : ℕ → Answer) where
  -- After one round, where `again` is the next. `int len` that doubles past its range is undefined.
  abbrev pub after_lookup : ℕ → Str → ℕ → Exec Result → Answer → Exec Result
  after_lookup len str_ip blocks again too_small =
      if leb (2 ^ 31) (len * 2)
      then fault
      else if alloc (len * 2)
      then again
      else ret (false, str_ip, free blocks)
  after_lookup len str_ip blocks again failed = looked_up str_ip blocks failed
  after_lookup len str_ip blocks again (found o) = looked_up str_ip blocks (found o)

  -- `fuel` bounds the rounds.
  unfoldable pub lookup_loop : ℕ → ℕ → Str → ℕ → Exec Result
  lookup_loop zero len str_ip blocks = waiting
  lookup_loop (suc fuel) len str_ip blocks =
      let again = lookup_loop fuel (len * 2) str_ip blocks in
      after_lookup len str_ip blocks again (lookup len)

  unfoldable pub get_host_ip_by_name : ℕ → Str → Exec Result
  unfolding lookup_loop
  get_host_ip_by_name fuel str_ip =
      if alloc 1024 then lookup_loop fuel 1024 str_ip 1 else ret (false, str_ip, 0)

-- `lookup` by the name of this host, where it has one.
unfoldable pub get_host_ip : (ℕ → Bool) → Option (ℕ → Answer) → ℕ → Str → Exec Result
unfolding get_host_ip_by_name
get_host_ip alloc none fuel str_ip = ret (false, str_ip, 0)
get_host_ip alloc (some lookup) fuel str_ip = get_host_ip_by_name alloc lookup fuel str_ip

pub data Level : Type 0 where
  debug info warning error fatal : Level

abbrev pub level_number : Level → ℕ
level_number debug = 0
level_number info = 1
level_number warning = 2
level_number error = 3
level_number fatal = 4

abbrev pub log_level_map : Level → Str
log_level_map debug = codes "DEBUG"
log_level_map info = codes "INFO"
log_level_map warning = codes "WARNING"
log_level_map error = codes "ERROR"
log_level_map fatal = codes "FATAL"

-- What `vsnprintf` leaves of the message `text` in a buffer of `size` bytes, one of which ends it.
abbrev pub printed : ℕ → Str → Str
printed size text = take (size - 1) text

abbrev pub truncation_note : ℕ → Str
truncation_note writenum =
    if ltb 4096 writenum then codes " LOG HAS BEEN TRUNCATED..." ++ to_string writenum else []

-- The line that RPC_LOG_FUNC prints, if any, without the end of the line. `place` is what stands
-- between the time and the message: the thread, the file, the line and the function.
unfoldable pub rpc_log : Level → Level → ℕ → ℕ → Str → Str → Option Str
rpc_log g_log_level level tv_sec tv_usec place text =
    if ltb (level_number level) (level_number g_log_level)
    then none
    else some (
        codes "["
        ++ (log_level_map level
            ++ (codes " "
                ++ (to_string tv_sec
                    ++ (codes "."
                        ++ (to_string (tv_usec * 1000)
                            ++ (codes " "
                                ++ (place
                                    ++ (printed 4096 text ++ truncation_note (length text))))))))))
