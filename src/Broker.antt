-- ===== src/Broker.antt =====
-- How a response is built: server/src/RpcRespBroker.cpp.
-- A pointer into the response's buffer is an offset, `none` for nullptr. A write outside the buffer
-- and a use of a missing package are faults.
pub mod Layout
pub mod Http
pub mod Strings
mod Tests
use rpcframe.Prelude.{
  ℕ, ◌+◌, Bool, true, false, not, ◌&&◌, Option, none, some, List, [], ◌∷◌, ◌++◌, Str, u32, u64,
  codes, be32, length, splice, ltb, ◌==◌, if◌then◌else◌, Exec, ret, waiting, fault, ◌>>=◌,
  to_string,
}
use rpcframe.Package.{
  RpcStatus, srv_notfound, method_notfound, status_code, ResponsePkg, Allocator, new_response,
  InnerResp, Codec, rpcframe_ver,
}

pub record Broker : Type 0 where
  pub conn_worker : ℕ
  pub conn_id : Str
  pub req_id : Str
  pub need_resp : Bool
  pub is_responed : Bool
  pub from_http : Bool
  pub resp_proto : InnerResp
  pub resp_pkg : Option ResponsePkg
  pub return_val_pos : ℕ  -- uint32_t
  pub user_data_pos : ℕ  -- uint32_t

unfoldable pub make : ℕ → Str → Str → Bool → Bool → Broker
make conn_worker conn_id req_id need_resp is_from_http = record {
  conn_worker = conn_worker;
  conn_id = conn_id;
  req_id = req_id;
  need_resp = need_resp;
  is_responed = false;
  from_http = is_from_http;
  resp_proto = record { version = rpcframe_ver; request_id = req_id };
  resp_pkg = none;
  return_val_pos = 0;
  user_data_pos = 0;
}

unfoldable pub is_alloced : Broker → Bool
is_alloced b = not (b.return_val_pos == 0)

unfoldable pub get_http_code : RpcStatus → ℕ
get_http_code srv_notfound = 404
get_http_code method_notfound = 404
get_http_code _ = 200

abbrev crlf : Str
crlf = 13 ∷ 10 ∷ []

unfoldable pub setup_http_hdr : ℕ → ℕ → Str
setup_http_hdr status len =
    codes "HTTP/1.1 "
    ++ (to_string status
        ++ (crlf
            ++ (codes "Content-Type: text/html"
                ++ (crlf
                    ++ (codes "Content-Length: "
                        ++ (to_string len
                            ++ (crlf ++ (codes "Connection: close" ++ (crlf ++ crlf)))))))))

-- memcpy into a package.
unfoldable pub write_at : ResponsePkg → ℕ → Str → Exec ResponsePkg
write_at pkg off bs =
    if ltb (length pkg.bytes) (off + length bs)
    then fault
    else ret (record pkg { bytes = splice pkg.bytes off bs })

-- memcpy through `m_resp_pkg->data`.
unfoldable pub write_resp : Broker → ℕ → Str → Exec Broker
unfolding write_at
write_resp b off bs = elim b.resp_pkg [
  | none ↦ fault
  | some pkg ↦ write_at pkg off bs >>= λ pkg'. ret (record b { resp_pkg = some pkg' })
]

-- The bytes of a C string, up to the one that ends it.
unfoldable pub c_str : Str → Exec Str
c_str [] = fault
c_str (c ∷ s) = let rest = c_str s in if c == 0 then ret [] else (rest >>= λ r. ret (c ∷ r))

-- The part of a `std::string` that `strcpy` copies: its own terminator ends it at the latest.
unfoldable pub until_nul : Str → Str
until_nul [] = []
until_nul (c ∷ s) = let rest = until_nul s in if c == 0 then [] else c ∷ rest

module _ (mem : Allocator) (proto : Codec InnerResp) where
  unfoldable pub alloc_http_resp : ℕ → Str → Broker → Exec (Option ℕ × Broker)
  unfolding setup_http_hdr write_at new_response
  alloc_http_resp status resp b = do
    let text = setup_http_hdr status (length resp) ++ resp
    pkg ← write_at (new_response mem (u32 (length text))) 0 text
    ret (some 0, record b { resp_pkg = some pkg; return_val_pos = pkg.data_len })

  unfoldable pub alloc_http_buf : ℕ → ℕ → Broker → Exec (Option ℕ × Broker)
  unfolding setup_http_hdr write_at new_response
  alloc_http_buf status len b = do
    let text = setup_http_hdr status len
    pkg ← write_at (new_response mem (u32 (length text + len))) 0 text
    ret (some (length text), record b { resp_pkg = some pkg; return_val_pos = pkg.data_len })

  -- `SerializeToArray` of the inner response, behind the two length words.
  abbrev put_proto : ℕ → ℕ → Option Str → Broker → ResponsePkg → Exec (Option ℕ × Broker)
  put_proto proto_size len none b pkg = ret (none, record b { resp_pkg = some pkg })
  put_proto proto_size len (some bs) b pkg = do
    pkg' ← write_at pkg 8 bs
    ret (
      some (8 + proto_size),
      record b {
        resp_pkg = some pkg';
        user_data_pos = u32 (8 + proto_size);
        return_val_pos = u32 (u32 (8 + proto_size) + len);
      },
    )

  unfoldable pub alloc_resp_buf : ℕ → Broker → Exec (Option ℕ × Broker)
  unfolding alloc_http_buf write_at new_response
  alloc_resp_buf len b = if b.from_http then alloc_http_buf 200 len b else do
    let proto_size = u32 (proto.byte_size b.resp_proto)
    let pkg_size = u64 (4 + proto_size + len + 4)
    pkg ← write_at (new_response mem (u32 (pkg_size + 4))) 0 (be32 pkg_size)
    pkg' ← write_at pkg 4 (be32 proto_size)
    put_proto proto_size len (proto.serialize b.resp_proto) b pkg'

  abbrev copy_string : Str → Option ℕ × Broker → Exec (Option ℕ × Broker)
  copy_string resp (none, b) = fault
  copy_string resp (some at, b) = do
    b' ← write_resp b at (until_nul resp ++ (0 ∷ []))
    b'' ← write_resp b' (at + length resp) (0 ∷ [])
    ret (some at, b'')

  unfoldable pub alloc_resp_buf_from : Str → Broker → Exec (Option ℕ × Broker)
  unfolding alloc_http_resp alloc_resp_buf write_resp until_nul
  alloc_resp_buf_from resp b =
      if b.from_http
      then alloc_http_resp 200 resp b
      else alloc_resp_buf (length resp + 1) b >>= copy_string resp

  -- `SerializeToArray` of the service's own message at the buffer that was returned.
  abbrev copy_message : Option Str → Option ℕ × Broker → Exec (Option ℕ × Broker)
  copy_message none (at, b) = ret (none, b)
  copy_message (some bs) (none, b) = fault
  copy_message (some bs) (some at, b) = write_resp b at bs >>= λ b'. ret (some at, b')

  unfoldable pub alloc_resp_buf_from_message {ℓ} :
      {M : Type ℓ} → Codec M → M → Broker → Exec (Option ℕ × Broker)
  unfolding alloc_http_buf alloc_resp_buf write_resp
  alloc_resp_buf_from_message codec m b =
      (if b.from_http
        then alloc_http_buf 200 (codec.byte_size m) b
        else alloc_resp_buf (codec.byte_size m) b)
      >>= copy_message (codec.serialize m)

  abbrev is_null : Option ResponsePkg → Bool
  is_null none = true
  is_null (some p) = false

  abbrev init_for : RpcStatus → Broker → Exec Broker
  init_for rs b =
      (if not b.from_http then alloc_resp_buf 1 b else alloc_http_buf (get_http_code rs) 1 b)
      >>= λ r. ret r.1

  unfoldable pub set_return_val : RpcStatus → Broker → Exec Broker
  unfolding alloc_resp_buf alloc_http_buf get_http_code write_resp status_code
  set_return_val rs b = do
    b' ← (if is_null b.resp_pkg && b.return_val_pos == 0 then init_for rs b else ret b)
    if not b'.from_http then write_resp b' b'.return_val_pos (be32 (status_code rs)) else ret b'

  -- The old buffer becomes a `std::string` from a `char *`.
  abbrev http_response : RpcStatus → Broker → Exec Broker
  http_response rs b = elim b.resp_pkg [
    | none ↦ fault
    | some pkg ↦
        c_str pkg.bytes >>= λ old. alloc_http_resp (get_http_code rs) old b >>= λ r. ret r.1
  ]

  -- `push` is `pushResp` of the connection worker, on whose state `W` it works.
  unfoldable pub response :
      {W : Type 0}
      → (Str → Broker → W → Exec (Broker × W))
      → RpcStatus
      → Broker
      → W
      → Exec (Bool × Broker × W)
  unfolding set_return_val alloc_http_resp get_http_code c_str
  response push rs b w = if not b.need_resp then ret (false, b, w) else do
    b' ← (if b.from_http then http_response rs b else set_return_val rs b)
    (b'', w') ← push b'.conn_id (record b' { is_responed = true }) w
    ret (true, b'', w')
