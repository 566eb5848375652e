-- ===== src/Broker/Http.antt =====
-- Responses to HTTP requests, as RpcRespBroker builds them.
use rpcframe.Prelude.{
  ℕ, zero, suc, ◌+◌, ◌/◌, ◌%◌, ◌^◌, ◌<◌, ◌≡◌, refl, sym, ap, ◌∙◌, true, false, Option, some, [],
  ◌∷◌, ◌++◌, Str, u32, codes, length, splice, ltb, le→ltb, Exec, ret, fault, ◌>>=◌, arith,
  length-append, to_string, digits, Bool-cases, inl, inr, append-nil, drop_all,
}
use rpcframe.Package.{RpcStatus, ResponsePkg, Allocator, new_response, InnerResp, Codec}
use rpcframe.Broker.{
  Broker, write_at, alloc_http_resp, alloc_resp_buf_from, setup_http_hdr, c_str, response, crlf,
}

module _ (mem : Allocator) (proto : Codec InnerResp) where
  -- The package of an HTTP response is the header for the body's length, and the body.
  pub alloc_http_resp_lem :
      (status : ℕ) (resp : Str) (b : Broker)
      → length (setup_http_hdr status (length resp)) + length resp < 2 ^ 32
      → (pkg : ResponsePkg) × (b' : Broker) × (alloc_http_resp mem proto status resp b
          ≡ ret (some 0, b'))
        × (b'.resp_pkg ≡ some pkg)
        × (pkg.bytes ≡ setup_http_hdr status (length resp) ++ resp)
        × (pkg.data_len ≡ length pkg.bytes)
        × (b'.need_resp ≡ b.need_resp)
        × (b'.from_http ≡ b.from_http)
  unfolding alloc_http_resp write_at new_response
  alloc_http_resp_lem status resp b h =
      let text : Str = setup_http_hdr status (length resp) ++ resp in
      let n : length text ≡ length (setup_http_hdr status (length resp)) + length resp =
        length-append (setup_http_hdr status (length resp)) resp in
      let whole : u32 (length text) ≡ length text = omega (arith, n) in
      let size : length (mem.fresh (length text)) ≡ length text = mem.length-fresh (length text) in
      let inside : ltb (length (mem.fresh (length text))) (0 + length text) ≡ false =
        le→ltb (length (mem.fresh (length text))) (0 + length text) (omega (arith, size)) in
      let bytes : splice (mem.fresh (length text)) 0 text ≡ text =
        ap (◌++◌ text) (drop_all (0 + length text) (mem.fresh (length text)) (omega (arith, size)))
        ∙ append-nil text in
      let pkg : ResponsePkg = record {
        bytes = splice (mem.fresh (length text)) 0 text;
        data_len = length text;
        gen_time = 0;
      } in
      (
        pkg,
        record b { resp_pkg = some pkg; return_val_pos = pkg.data_len },
        rw (whole, inside),
        refl,
        bytes,
        sym (ap length bytes),
        refl,
        refl,
      )

-- Text with no byte 0.
abbrev pub HasNoNul : Str → Type 0
HasNoNul [] = Unit
HasNoNul (c ∷ s) = (0 < c) × HasNoNul s

HasNoNul-append : (s t : Str) → HasNoNul s → HasNoNul t → HasNoNul (s ++ t)
HasNoNul-append [] t p q = q
HasNoNul-append (c ∷ s) t p q = (p.0, HasNoNul-append s t p.1 q)

digits-HasNoNul : (fuel n : ℕ) (acc : Str) → HasNoNul acc → HasNoNul (digits fuel n acc)
unfolding digits
digits-HasNoNul zero n acc h = h
digits-HasNoNul (suc fuel) n acc h = elim (Bool-cases (ltb n 10)) [
  | inl last ↦ rw last (omega arith, h)
  | inr more ↦ rw more (digits-HasNoNul fuel (n / 10) ((48 + n % 10) ∷ acc) (omega arith, h))
]

to_string-HasNoNul : (n : ℕ) → HasNoNul (to_string n)
unfolding to_string
to_string-HasNoNul n = digits-HasNoNul (suc n) n [] tt

setup_http_hdr-HasNoNul : (status len : ℕ) → HasNoNul (setup_http_hdr status len)
unfolding setup_http_hdr
setup_http_hdr-HasNoNul status len = HasNoNul-append (codes "HTTP/1.1 ") _ (omega arith) (
    HasNoNul-append (to_string status) _ (to_string-HasNoNul status) (
      HasNoNul-append
        (crlf ++ (codes "Content-Type: text/html" ++ (crlf ++ codes "Content-Length: "))) _
        (omega arith) (HasNoNul-append (to_string len) _ (to_string-HasNoNul len) (omega arith))))

pub c_str-fault : (s : Str) → HasNoNul s → c_str s ≡ fault
unfolding c_str
c_str-fault [] h = refl
c_str-fault (c ∷ s) h = ground (arith, c_str-fault s h.1)

module _ (mem : Allocator) (proto : Codec InnerResp) where
  alloc_resp_buf_from-http :
      (resp : Str) (b : Broker)
      → b.from_http ≡ true
      → alloc_resp_buf_from mem proto resp b ≡ alloc_http_resp mem proto 200 resp b
  unfolding alloc_resp_buf_from
  alloc_resp_buf_from-http resp b http = rw http

module _ (mem : Allocator) (proto : Codec InnerResp) {W : Type 0}
    (push : Str → Broker → W → Exec (Broker × W)) where
  response-fault :
      (rs : RpcStatus) (b : Broker) (pkg : ResponsePkg) (w : W)
      → b.from_http ≡ true
      → b.need_resp ≡ true
      → b.resp_pkg ≡ some pkg
      → c_str pkg.bytes ≡ fault
      → response mem proto push rs b w ≡ fault
  unfolding response
  response-fault rs b pkg w http need has overrun = rw (need, http, has, overrun)

  -- A service that builds its answer to an HTTP request with `allocRespBufFrom` and then answers by
  -- `response`, where the answer has no byte 0 and fits the buffer's 32-bit length: the buffer is
  -- read as a C string that nothing ends, so the read runs past its end.
  pub response_http_overruns :
      (resp : Str) (rs : RpcStatus) (b : Broker) (w : W)
      → b.from_http ≡ true
      → b.need_resp ≡ true
      → HasNoNul resp
      → length (setup_http_hdr 200 (length resp)) + length resp < 2 ^ 32
      → (alloc_resp_buf_from mem proto resp b >>= λ r. response mem proto push rs r.1 w) ≡ fault
  response_http_overruns resp rs b w http need clean fits =
      let (pkg, b', built, has, bytes, _, need', http') =
        alloc_http_resp_lem mem proto 200 resp b fits in
      let overrun : c_str pkg.bytes ≡ fault = rw bytes (
        c_str-fault _ (
          HasNoNul-append (setup_http_hdr 200 (length resp)) resp
            (setup_http_hdr-HasNoNul 200 (length resp)) clean)) in
      ap (λ (m : Exec (Option ℕ × Broker)). m >>= λ r. response mem proto push rs r.1 w)
        (alloc_resp_buf_from-http mem proto resp b http ∙ built)
      ∙ response-fault rs b' pkg w (http' ∙ http) (need' ∙ need) has overrun
