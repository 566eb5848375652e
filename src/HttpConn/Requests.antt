-- ===== src/HttpConn/Requests.antt =====
-- A request that comes over HTTP, up to the service.
use rpcframe.Prelude.{
  ℕ, ◌+◌, ◌-◌, ◌≤◌, ◌<◌, ◌^◌, ◌≡◌, refl, sym, ap, ◌∙◌, Bool, true, false, not, ◌||◌, Option, none,
  some, List, [], ◌∷◌, ◌++◌, Str, u32, be32, length, take, drop, splice, ◌==◌, if◌then◌else◌, Exec,
  ret, ◌>>=◌, arith, take_all, drop_all,
}
use rpcframe.Package.{RequestPkg, Allocator, new_request, InnerReq, InnerResp, Codec}
use rpcframe.Net.{Arrival, arrived, leftover, chunk}
use rpcframe.ConnWorker.{ConnWorker}
use rpcframe.Stats.{calc_req_q_time}
use rpcframe.Broker.{c_str}
use rpcframe.RpcConn.{PkgRet, failed, pending, complete}
use rpcframe.ServerConn.{ServerConn}
use rpcframe.RpcWorker.{Clock, Services, dispatch, parsed, run}
use rpcframe.RpcWorker.Dispatch.{body, run-body}
use rpcframe.HttpConn.{
  HttpEvent, HttpParser, HttpConn, on_events, slash, names, http_request, packed, make_package,
  received, receive, executed, rest_of, get_request,
}
use rpcframe.HttpConn.Callbacks.{
  url_of, body_of, on_events-url, on_events-body, on_events-base, path, names-path, filled-body,
}

-- The tests between the parser and the request.
passed {ℓ} :
    {A : Type ℓ} (x y z : A) (upgrade all none_came bad final : Bool)
    → upgrade ≡ false
    → all ≡ true
    → none_came ≡ false
    → bad ≡ false
    → final ≡ true
    → (if upgrade || not all || none_came || bad then x else if final then y else z) ≡ y
passed x y z false true false false true u a n b f = refl
passed x y z true all none_came bad final u a n b f = cc
passed x y z false false none_came bad final u a n b f = cc
passed x y z false true true bad final u a n b f = cc
passed x y z false true false true final u a n b f = cc
passed x y z false true false false false u a n b f = cc

module _ {P : Type 0} (parser : HttpParser P) (mem : Allocator) (proto : Codec InnerReq)
    (c : HttpConn P) (b : ℕ) (bs : Str) (evs : List Arrival) (p : P) (es : List HttpEvent)
    (shown service method ms : Str) (connected : c.base.is_connected ≡ true)
    (script : c.base.sock.incoming ≡ arrived b bs ∷ evs) (small : length (b ∷ bs) ≤ 4096)
    (printable : c_str (splice (mem.fresh 4096) 0 (b ∷ bs)) ≡ ret shown)
    (takes : parser.execute c.http_parser (b ∷ bs) ≡ (p, es, length (b ∷ bs)))
    (stays : parser.upgrade p ≡ false) where
  -- The connection after the callbacks.
  abbrev pub heard : HttpConn P
  heard = on_events es (record (rest_of evs c) { http_parser = p })

  abbrev pub done : HttpConn P
  done = record heard { is_body_final = false }

  chunk_heard :
      get_request parser mem proto c
      ≡ executed parser mem proto (b ∷ bs) (rest_of evs c) (p, es, length (b ∷ bs))
  unfolding get_request
  chunk_heard =
      let all : take 4096 (b ∷ bs) ≡ b ∷ bs = take_all 4096 (b ∷ bs) small in
      let none_left : drop 4096 (b ∷ bs) ≡ [] = drop_all 4096 (b ∷ bs) small in
      let c' : HttpConn P = rest_of evs c in
      ap
        (λ (on : Bool).
          if not on then ret (failed, c) else receive parser mem proto c.base.sock.incoming c)
        connected
      ∙ (ap (λ (i : List Arrival). receive parser mem proto i c) script
          ∙ (ap
                (λ (x : Str).
                  received parser mem proto x (rest_of (leftover 4096 (b ∷ bs) ++ evs) c))
                all
              ∙ (ap (λ (x : Str). received parser mem proto (b ∷ bs) (rest_of (chunk x ++ evs) c))
                    none_left
                  ∙ (ap
                        (λ (m : Exec Str). m >>= λ shown.
                          executed parser mem proto (b ∷ bs) c'
                            (parser.execute c.http_parser (b ∷ bs)))
                        printable
                      ∙ ap (executed parser mem proto (b ∷ bs) c') takes))))

  module _ (good : heard.parse_fail ≡ false) (final : heard.is_body_final ≡ true)
      (url : c.url ++ url_of es ≡ path service method) (plain : slash service ≡ none)
      (written : proto.serialize (http_request service method (c.body ++ body_of es)) ≡ some ms)
      (fits : length ms + 4 < 2 ^ 32) where
    abbrev req : InnerReq
    req = http_request service method (c.body ++ body_of es)

    request_made : get_request parser mem proto c ≡ make_package parser mem proto done
    request_made =
        let size : (length (b ∷ bs) == length (b ∷ bs)) ≡ true = ground arith in
        chunk_heard
        ∙ passed (ret (failed, heard)) (make_package parser mem proto done) (ret (pending, heard))
            (parser.upgrade p) (length (b ∷ bs) == length (b ∷ bs)) (length (b ∷ bs) == 0)
            heard.parse_fail heard.is_body_final stays size (ground arith) good final

    -- The package.
    abbrev pub pkg : RequestPkg
    pkg = record (new_request mem (u32 (u32 (proto.byte_size req) + 4)) c.base.seqid) {
      bytes =
          splice
            (splice (mem.fresh (u32 (u32 (proto.byte_size req) + 4))) 0
              (be32 (u32 (proto.byte_size req))))
            4 ms;
      data_len = u32 (proto.byte_size req);
      is_from_http = true;
    }

    heard_names : names done.url ≡ ret (service, method)
    heard_names =
        ap names (on_events-url es (record (rest_of evs c) { http_parser = p }) ∙ url)
        ∙ names-path service method plain

    -- What `make_package` gives for these names, this body, and this identifier of the connection.
    abbrev made : Str → Str → Str → Str → Exec (PkgRet × HttpConn P)
    made s m d id =
        let q = http_request s m d in
        ret (packed parser mem proto (u32 (proto.byte_size q)) id (proto.serialize q), done)

    package_made : make_package parser mem proto done ≡ ret (complete pkg, done)
    unfolding make_package new_request
    package_made =
        ap (λ (x : Exec (Str × Str)). x >>= λ r. made r.0 r.1 done.body done.base.seqid) heard_names
        ∙ (ap (λ (d : Str). made service method d done.base.seqid)
              (on_events-body es (record (rest_of evs c) { http_parser = p }))
            ∙ (ap (λ (x : ServerConn). made service method (c.body ++ body_of es) x.seqid)
                  (on_events-base es (record (rest_of evs c) { http_parser = p }))
                ∙ ap
                    (λ (o : Option Str).
                      ret
                        (packed parser mem proto (u32 (proto.byte_size req)) c.base.seqid o, done))
                    written))

    pkg-body : pkg.bytes ≡ body ms []
    pkg-body =
        let size : proto.byte_size req ≡ length ms = sym (proto.size_lem written) in
        ap (λ (n : ℕ). splice (splice (mem.fresh (u32 (u32 n + 4))) 0 (be32 (u32 n))) 4 ms) size
        ∙ filled-body mem ms fits

    module _ (resp_proto : Codec InnerResp) (t : Clock) (num now : ℕ) (m : Services)
        (w : ConnWorker) where
      -- The package as the connection's worker passes it on.
      abbrev pub queued : RequestPkg
      queued = record pkg { gen_time = now; conn_worker = some num }

      abbrev pub counted : ConnWorker
      counted = record w { stats = calc_req_q_time (t.taken - now) w.stats }

      run_queued :
          run mem resp_proto proto t queued m w
          ≡ dispatch mem resp_proto proto t queued req (c.body ++ body_of es) num m counted
      run_queued =
          run-body mem resp_proto proto t queued m w ms [] pkg-body (omega (arith, fits))
          ∙ ap
              (λ (o : Option InnerReq).
                parsed mem resp_proto proto t queued (length ms) o m counted)
              (proto.parse_lem written)

      -- A chunk of at most 4096 bytes ends a request, in the eyes of the parser. The package that
      -- `getRequest` makes of it runs, in the worker, the service and the method of the path
      -- "/service/method" on the body. The path and the body are what this chunk adds to what the
      -- connection has of them; and it keeps them. (A chunk is printed, so the buffer has a byte that
      -- ends a string.)
      pub http_request_runs :
          (q : RequestPkg) × (c' : HttpConn P) × (get_request parser mem proto c
            ≡ ret (complete q, c'))
          × (c'.url ≡ path service method)
          × (c'.body ≡ c.body ++ body_of es)
          × (run mem resp_proto proto t (record q { gen_time = now; conn_worker = some num }) m w
              ≡ dispatch mem resp_proto proto t
                  (record q { gen_time = now; conn_worker = some num })
                  req
                  (c.body ++ body_of es)
                  num
                  m
                  counted)
      http_request_runs = (
        pkg,
        done,
        request_made ∙ package_made,
        on_events-url es (record (rest_of evs c) { http_parser = p }) ∙ url,
        on_events-body es (record (rest_of evs c) { http_parser = p }),
        run_queued,
      )
