-- ===== src/ClientWorker/Answer.antt =====
-- A response on its way from the service that answers (server/src/RpcRespBroker.cpp) to the callback of
-- the call (client/src/RpcClientWorker.cpp).
use rpcframe.Prelude.{
  ◌>>=◌, ℕ, zero, suc, ◌+◌, ◌-◌, ◌<◌, ◌^◌, ◌≡◌, refl, sym, ap, ◌∙◌, false, Option, none, some, List,
  [], ◌∷◌, ◌++◌, Str, u64, length, take, drop, ntohl, be32, get_elem?, ret, Returns, arith,
  length-be32, ntohl-be32, take-append, drop-append, drop-drop, append-nil, find-erase, str_eq_iff,
  take_all,
}
use rpcframe.Package.{RpcStatus, status_code, ResponsePkg, Allocator, InnerResp, Codec}
use rpcframe.RpcWorker.{slice, message}
use rpcframe.RpcWorker.Dispatch.{slice-eq, message-eq}
use rpcframe.Broker.{Broker, alloc_resp_buf_from, set_return_val}
use rpcframe.Broker.Http.{HasNoNul}
use rpcframe.Broker.Strings.{string_reply}
use rpcframe.Broker.Layout.{reply, reply_body, reply_size, length-reply_body, reply_lem}
use rpcframe.CallBack.{CallBack, callback_safe}
use rpcframe.Looper.{Looper, modify, get_cb, remove_cb}
use rpcframe.ClientWorker.{run, deliver, tell_response, response_data}

modified :
    (f : CallBack → CallBack) (i : ℕ) (cb : CallBack) (cbs : List CallBack)
    → get_elem? cbs i ≡ some cb
    → get_elem? (modify i f cbs) i ≡ some (f cb)
modified f i cb [] e = cc
modified f zero cb (x ∷ cbs) e = ap (λ o. elim o [ none ↦ none | some c ↦ some (f c) ]) e
modified f (suc i) cb (x ∷ cbs) e = modified f i cb cbs e

status_code-lt : (rs : RpcStatus) → status_code rs < 2 ^ 32
unfolding status_code
status_code-lt rs = ground arith

module _ (proto : Codec InnerResp) (resp : InnerResp) (ps d : Str) (rs : RpcStatus) (l : Looper)
    (pkg : ResponsePkg) (written : proto.serialize resp ≡ some ps)
    (same : pkg.bytes ≡ reply_body ps d rs) (size : pkg.data_len ≡ length pkg.bytes)
    (fits : reply_size ps d + 4 < 2 ^ 32) where
  length-body : length pkg.bytes ≡ reply_size ps d
  length-body = ap length same ∙ length-reply_body ps d rs

  behind_word : drop 4 pkg.bytes ≡ ps ++ (d ++ be32 (status_code rs))
  behind_word =
      ap (drop 4) same
      ∙ drop-append 4 (be32 (length ps)) (ps ++ (d ++ be32 (status_code rs)))
          (sym (length-be32 (length ps)))

  behind_message : drop (4 + length ps) pkg.bytes ≡ d ++ be32 (status_code rs)
  behind_message =
      sym (drop-drop 4 (length ps) pkg.bytes)
      ∙ (ap (drop (length ps)) behind_word
          ∙ drop-append (length ps) ps (d ++ be32 (status_code rs)) refl)

  read_number : (n : ℕ) → n < 2 ^ 32 → ntohl (be32 n) ≡ n
  read_number n h = ap ntohl (sym (append-nil (be32 n))) ∙ ntohl-be32 n [] h

  word_lem : slice pkg.bytes 0 4 ≡ ret (be32 (length ps))
  word_lem =
      slice-eq pkg.bytes 0 4 (omega (arith, length-body))
      ∙ ap (λ (x : Str). ret x)
          (ap (take 4) same
            ∙ take-append 4 (be32 (length ps)) (ps ++ (d ++ be32 (status_code rs)))
                (sym (length-be32 (length ps))))

  message_lem : message proto pkg.bytes (length ps) ≡ ret (proto.parse ps)
  message_lem = message-eq proto pkg.bytes ps (length ps) (omega (arith, length-body)) (
      ap (take (length ps)) behind_word
      ∙ take-append (length ps) ps (d ++ be32 (status_code rs)) refl)

  status_lem : slice pkg.bytes (u64 (pkg.data_len + 2 ^ 64 - 4)) 4 ≡ ret (be32 (status_code rs))
  status_lem =
      let at : u64 (pkg.data_len + 2 ^ 64 - 4) ≡ 4 + length ps + length d =
        omega (arith, size, length-body) in
      let end : drop (4 + length ps + length d) pkg.bytes ≡ be32 (status_code rs) =
        sym (drop-drop (4 + length ps) (length d) pkg.bytes)
        ∙ (ap (drop (length d)) behind_message
            ∙ drop-append (length d) d (be32 (status_code rs)) refl) in
      ap (λ (n : ℕ). slice pkg.bytes n 4) at
      ∙ (slice-eq pkg.bytes (4 + length ps + length d) 4 (omega (arith, length-body))
          ∙ ap (λ (x : Str). ret x)
              (ap (take 4) end
                ∙ take_all 4 (be32 (status_code rs)) (omega (arith, length-be32 (status_code rs)))))

  data_lem : response_data pkg (length ps) ≡ d
  data_lem =
      let len : u64 (pkg.data_len + 0x10000000000000000 - 4 - 4 - length ps) ≡ length d =
        omega (arith, size, length-body) in
      ap (λ (n : ℕ). take n (drop (4 + length ps) pkg.bytes)) len
      ∙ (ap (take (length d)) behind_message
          ∙ take-append (length d) d (be32 (status_code rs)) refl)

  run_lem :
      run proto pkg l
      ≡ ret (deliver (status_code rs) d resp.request_id (get_cb resp.request_id l) l)
  unfolding run
  run_lem = rw (
    word_lem,
    read_number (length ps) (omega (arith, fits)),
    message_lem,
    proto.parse_lem written,
    status_lem,
    read_number (status_code rs) (status_code-lt rs),
    data_lem,
  )

-- A package as the client's connection hands it on.
abbrev pub received : Str → ResponsePkg
received bs = record { bytes = bs; data_len = length bs; gen_time = 0 }

-- The callback was told, and the call is pending no more.
abbrev pub IsAnswered : Str → ℕ → ℕ → Str → CallBack → Looper → Type 0
IsAnswered id i st d cb l =
    (get_elem? l.cbs i ≡ some (callback_safe st d cb)) × (get_cb id l ≡ none)

deliver-IsAnswered :
    (st : ℕ) (d id : Str) (i : ℕ) (cb : CallBack) (l : Looper)
    → get_elem? l.cbs i ≡ some cb
    → cb.has_timeout ≡ false
    → IsAnswered id i st d cb (deliver st d id (some i) l)
unfolding get_cb remove_cb
deliver-IsAnswered st d id i cb l e fresh =
    let told : tell_response st d cb ≡ callback_safe st d cb = rw fresh in
    (
      modified (tell_response st d) i cb l.cbs e ∙ ap (λ (c : CallBack). some c) told,
      ground (arith, find-erase id id l.id_cb_map, str_eq_iff id id),
    )

-- The client's worker, given the bytes behind the length word of a reply.
pub response_answers :
    (proto : Codec InnerResp) (resp : InnerResp) (ps d : Str) (rs : RpcStatus) (pkg : ResponsePkg)
    (i : ℕ) (cb : CallBack) (l : Looper)
    → proto.serialize resp ≡ some ps
    → pkg.bytes ≡ reply_body ps d rs
    → pkg.data_len ≡ length pkg.bytes
    → reply_size ps d + 4 < 2 ^ 32
    → get_cb resp.request_id l ≡ some i
    → get_elem? l.cbs i ≡ some cb
    → cb.has_timeout ≡ false
    → Returns (IsAnswered resp.request_id i (status_code rs) d cb) (run proto pkg l)
response_answers proto resp ps d rs pkg i cb l written same size fits e at fresh =
    let result : run proto pkg l ≡ ret (deliver (status_code rs) d resp.request_id (some i) l) =
      run_lem proto resp ps d rs l pkg written same size fits
      ∙ ap (λ (o : Option ℕ). ret (deliver (status_code rs) d resp.request_id o l)) e in
    rw result (deliver-IsAnswered (status_code rs) d resp.request_id i cb l at fresh)

-- A service asks for a buffer, fills it with `d` and returns `rs`. The client's worker, given what
-- stands in that buffer behind its length word, calls the callback that is pending for the request
-- with that status and that data, and takes it out of the table. The callback was not marked as timed
-- out, and the response is one whose size fits 32 bits.
pub answer_arrives :
    (mem : Allocator) (proto : Codec InnerResp) (d ps : Str) (rs : RpcStatus) (b : Broker) (i : ℕ)
    (cb : CallBack) (l : Looper)
    → b.from_http ≡ false
    → proto.serialize b.resp_proto ≡ some ps
    → reply_size ps d + 4 < 2 ^ 32
    → get_cb b.resp_proto.request_id l ≡ some i
    → get_elem? l.cbs i ≡ some cb
    → cb.has_timeout ≡ false
    → (b' : Broker) × (pkg : ResponsePkg) × (reply mem proto d rs b ≡ ret b')
      × (b'.resp_pkg ≡ some pkg)
      × Returns
          (IsAnswered b.resp_proto.request_id i (status_code rs) d cb)
          (run proto (received (drop 4 pkg.bytes)) l)
answer_arrives mem proto d ps rs b i cb l own written fits e at fresh =
    let (b', pkg, sent, there, size, layout) = reply_lem mem proto d ps rs b own written fits in
    let tail : drop 4 pkg.bytes ≡ reply_body ps d rs =
      ap (drop 4) layout
      ∙ drop-append 4 (be32 (reply_size ps d)) (reply_body ps d rs)
          (sym (length-be32 (reply_size ps d))) in
    (
      b',
      pkg,
      sent,
      there,
      response_answers proto b.resp_proto ps d rs (received (drop 4 pkg.bytes)) i cb l written tail
          refl fits e at fresh,
    )

-- The same, where the service gives its data as a string that has no byte 0, by `allocRespBufFrom`: the
-- callback gets the string with a byte 0 behind it.
pub string_answer_arrives :
    (mem : Allocator) (proto : Codec InnerResp) (d ps : Str) (rs : RpcStatus) (b : Broker) (i : ℕ)
    (cb : CallBack) (l : Looper)
    → HasNoNul d
    → b.from_http ≡ false
    → proto.serialize b.resp_proto ≡ some ps
    → reply_size ps (d ++ (0 ∷ [])) + 4 < 2 ^ 32
    → get_cb b.resp_proto.request_id l ≡ some i
    → get_elem? l.cbs i ≡ some cb
    → cb.has_timeout ≡ false
    → (b' : Broker) × (pkg : ResponsePkg) × ((alloc_resp_buf_from mem proto d b >>= λ q.
          set_return_val mem proto rs q.1)
        ≡ ret b')
      × (b'.resp_pkg ≡ some pkg)
      × Returns
          (IsAnswered b.resp_proto.request_id i (status_code rs) (d ++ (0 ∷ [])) cb)
          (run proto (received (drop 4 pkg.bytes)) l)
string_answer_arrives mem proto d ps rs b i cb l clean own written fits e at fresh =
    let (b', pkg, sent, there, result) =
      answer_arrives mem proto (d ++ (0 ∷ [])) ps rs b i cb l own written fits e at fresh in
    (b', pkg, string_reply mem proto d rs b own clean ∙ sent, there, result)
