-- ===== src/ClientWorker.antt =====
-- What the client does with a response: RpcClientWorker::run of client/src/RpcClientWorker.cpp.
pub mod Answer
mod Tests
use rpcframe.Prelude.{
  ℕ, ◌+◌, ◌-◌, Bool, true, false, Option, none, some, List, [], ◌∷◌, Str, u64, take, drop, ntohl,
  get_elem?, if◌then◌else◌, Exec, ret, waiting, fault, ◌>>=◌,
}
use rpcframe.Package.{ResponsePkg, InnerResp, Codec}
use rpcframe.RpcWorker.{slice, message}
use rpcframe.CallBack.{CallBack, callback_safe}
use rpcframe.Looper.{Looper, modify, get_cb, remove_cb}

-- `rd`, as far as it lies in the package.
abbrev pub response_data : ResponsePkg → ℕ → Str
response_data pkg proto_len =
    take (u64 (pkg.data_len + 0x10000000000000000 - 4 - 4 - proto_len))
      (drop (4 + proto_len) pkg.bytes)

abbrev pub tell_response : ℕ → Str → CallBack → CallBack
tell_response ret_val rd cb = if cb.has_timeout then cb else callback_safe ret_val rd cb

-- The callback that is found may be nullptr.
abbrev pub deliver : ℕ → Str → Str → Option ℕ → Looper → Looper
deliver ret_val rd id none l = l
deliver ret_val rd id (some i) l =
    remove_cb id (record l { cbs = modify i (tell_response ret_val rd) l.cbs })

abbrev pub parsed : ResponsePkg → ℕ → Option InnerResp → Looper → Exec Looper
parsed pkg proto_len none l = ret l
parsed pkg proto_len (some resp) l =
    slice pkg.bytes (u64 (pkg.data_len + 0x10000000000000000 - 4)) 4 >>= λ word. ret (
      deliver (ntohl word) (response_data pkg proto_len) resp.request_id (get_cb resp.request_id l)
        l)

module _ (proto : Codec InnerResp) where
  unfoldable pub run : ResponsePkg → Looper → Exec Looper
  unfolding slice message get_cb remove_cb callback_safe
  run pkg l = do
    word ← slice pkg.bytes 0 4
    let proto_len = ntohl word
    resp ← message proto pkg.bytes proto_len
    parsed pkg proto_len resp l
