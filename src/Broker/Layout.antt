-- ===== src/Broker/Layout.antt =====
-- The bytes of a response in rpcframe's own protocol, as RpcRespBroker lays them out.
use rpcframe.Prelude.{
  ℕ, ◌+◌, ◌^◌, ◌≤◌, ◌<◌, ◌≡◌, refl, sym, ap, ◌∙◌, false, true, Option, none, some, [], ◌++◌, Str,
  u32, u64, be32, length, take, splice, ltb, le→ltb, Exec, ret, fault, ◌>>=◌, arith, length-append,
  length-be32, take-splice, length-splice, take_all, append_assoc,
}
use rpcframe.Package.{
  RpcStatus, status_code, ResponsePkg, Allocator, new_response, InnerResp, Codec,
}
use rpcframe.Broker.{Broker, is_alloced, write_at, write_resp, alloc_resp_buf, set_return_val}

-- The first bytes of a package of `n` bytes are written, and are `x`.
record Filled (pkg : ResponsePkg) (n : ℕ) (x : Str) : Type 0 where
  size : length pkg.bytes ≡ n
  same_len : pkg.data_len ≡ n
  prefix : take (length x) pkg.bytes ≡ x

abbrev wrote : ResponsePkg → ℕ → Str → ResponsePkg
wrote pkg off bs = record pkg { bytes = splice pkg.bytes off bs }

write_at-wrote :
    (pkg : ResponsePkg) (n off : ℕ) (x bs : Str)
    → Filled pkg n x
    → off ≡ length x
    → length x + length bs ≤ n
    → (write_at pkg off bs ≡ ret (wrote pkg off bs)) × Filled (wrote pkg off bs) n (x ++ bs)
unfolding write_at
write_at-wrote pkg n off x bs f e h =
    let inside : ltb (length pkg.bytes) (off + length bs) ≡ false =
      le→ltb (length pkg.bytes) (off + length bs) (omega (arith, f.size)) in
    (
      rw inside,
      record {
        size = omega (arith, length-splice pkg.bytes off bs, f.size);
        same_len = f.same_len;
        prefix =
            take-splice pkg.bytes off (length (x ++ bs)) bs (omega (arith, f.size))
              (omega (arith, length-append x bs))
            ∙ ap (λ (y : Str). y ++ bs) (ap (λ (k : ℕ). take k pkg.bytes) e ∙ f.prefix);
      },
    )

-- What a service does with the pointer that `allocRespBuf` returned.
abbrev pub write_user : Str → Option ℕ × Broker → Exec Broker
write_user d (none, b) = fault
write_user d (some at, b) = write_resp b at d

module _ (mem : Allocator) (proto : Codec InnerResp) where
  -- A service that asks for a buffer, fills it with `d` and returns `rs`.
  unfoldable pub reply : Str → RpcStatus → Broker → Exec Broker
  reply d rs b =
      (alloc_resp_buf mem proto (length d) b >>= write_user d) >>= set_return_val mem proto rs

-- The bytes behind the length word.
abbrev pub reply_body : Str → Str → RpcStatus → Str
reply_body ps d rs = be32 (length ps) ++ (ps ++ (d ++ be32 (status_code rs)))

abbrev pub reply_size : Str → Str → ℕ
reply_size ps d = 4 + length ps + length d + 4

pub length-reply_body :
    (ps d : Str) (rs : RpcStatus) → length (reply_body ps d rs) ≡ reply_size ps d
length-reply_body ps d rs = omega (
  arith,
  length-append (be32 (length ps)) (ps ++ (d ++ be32 (status_code rs))),
  length-append ps (d ++ be32 (status_code rs)),
  length-append d (be32 (status_code rs)),
  length-be32 (length ps),
  length-be32 (status_code rs),
)

module _ (mem : Allocator) (proto : Codec InnerResp) (d ps : Str) (rs : RpcStatus) (b : Broker)
    (own : b.from_http ≡ false) (written : proto.serialize b.resp_proto ≡ some ps)
    (fits : reply_size ps d + 4 < 2 ^ 32) where
  abbrev total : ℕ
  total = reply_size ps d + 4

  -- The package after each of the five writes.
  abbrev raw : ResponsePkg
  raw = new_response mem total

  abbrev with_size : ResponsePkg
  with_size = wrote raw 0 (be32 (reply_size ps d))

  abbrev with_proto_size : ResponsePkg
  with_proto_size = wrote with_size 4 (be32 (length ps))

  abbrev with_proto : ResponsePkg
  with_proto = wrote with_proto_size 8 ps

  abbrev with_data : ResponsePkg
  with_data = wrote with_proto (8 + length ps) d

  abbrev with_status : ResponsePkg
  with_status = wrote with_data (8 + length ps + length d) (be32 (status_code rs))

  raw-Filled : Filled raw total []
  unfolding new_response
  raw-Filled = record { size = mem.length-fresh total; same_len = refl; prefix = refl }

  write_size :
      (write_at raw 0 (be32 (reply_size ps d)) ≡ ret with_size)
      × Filled with_size total (be32 (reply_size ps d))
  write_size =
      write_at-wrote raw total 0 [] (be32 (reply_size ps d)) raw-Filled refl
        (omega (arith, length-be32 (reply_size ps d)))

  abbrev head : Str
  head = be32 (reply_size ps d) ++ be32 (length ps)

  length-head : length head ≡ 8
  length-head = omega (
    arith,
    length-append (be32 (reply_size ps d)) (be32 (length ps)),
    length-be32 (reply_size ps d),
    length-be32 (length ps),
  )

  write_proto_size :
      (write_at with_size 4 (be32 (length ps)) ≡ ret with_proto_size)
      × Filled with_proto_size total head
  write_proto_size =
      write_at-wrote with_size total 4 (be32 (reply_size ps d)) (be32 (length ps)) write_size.1
        (sym (length-be32 (reply_size ps d)))
        (omega (arith, length-be32 (reply_size ps d), length-be32 (length ps)))

  write_proto :
      (write_at with_proto_size 8 ps ≡ ret with_proto) × Filled with_proto total (head ++ ps)
  write_proto =
      write_at-wrote with_proto_size total 8 head ps write_proto_size.1 (sym length-head)
        (omega (arith, length-head))

  write_data :
      (write_at with_proto (8 + length ps) d ≡ ret with_data)
      × Filled with_data total ((head ++ ps) ++ d)
  write_data =
      write_at-wrote with_proto total (8 + length ps) (head ++ ps) d write_proto.1
        (omega (arith, length-append head ps, length-head))
        (omega (arith, length-append head ps, length-head))

  write_status :
      (write_at with_data (8 + length ps + length d) (be32 (status_code rs)) ≡ ret with_status)
      × Filled with_status total (((head ++ ps) ++ d) ++ be32 (status_code rs))
  write_status =
      write_at-wrote with_data total (8 + length ps + length d) ((head ++ ps) ++ d)
        (be32 (status_code rs)) write_data.1
        (omega (arith, length-append (head ++ ps) d, length-append head ps, length-head))
        (omega (
          arith,
          length-append (head ++ ps) d,
          length-append head ps,
          length-head,
          length-be32 (status_code rs),
        ))

  abbrev alloced : Broker
  alloced = record b {
    resp_pkg = some with_proto;
    user_data_pos = 8 + length ps;
    return_val_pos = 8 + length ps + length d;
  }

  alloc_lem : alloc_resp_buf mem proto (length d) b ≡ ret (some (8 + length ps), alloced)
  unfolding alloc_resp_buf
  alloc_lem =
      let size : u32 (proto.byte_size b.resp_proto) ≡ length ps =
        omega (arith, proto.size_lem written) in
      let whole : u64 (4 + length ps + length d + 4) ≡ reply_size ps d = omega arith in
      let all : u32 (reply_size ps d + 4) ≡ total = omega arith in
      let pos : u32 (8 + length ps) ≡ 8 + length ps = omega arith in
      let pos' : u32 (8 + length ps + length d) ≡ 8 + length ps + length d = omega arith in
      rw
        (own, size, whole, all, write_size.0, write_proto_size.0, written, write_proto.0, pos, pos')

  write_user_lem :
      write_user d (some (8 + length ps), alloced)
      ≡ ret (record alloced { resp_pkg = some with_data })
  unfolding write_resp
  write_user_lem = rw (write_data.0)

  abbrev answered : Broker
  answered = record alloced { resp_pkg = some with_status }

  set_return_val_lem :
      set_return_val mem proto rs (record alloced { resp_pkg = some with_data }) ≡ ret answered
  unfolding set_return_val
  set_return_val_lem = rw (own, write_status.0)

  answered_bytes : with_status.bytes ≡ be32 (reply_size ps d) ++ reply_body ps d rs
  answered_bytes =
      let x : Str = ((head ++ ps) ++ d) ++ be32 (status_code rs) in
      let f : Filled with_status total x = write_status.1 in
      sym (
        take_all (length x) with_status.bytes (
          omega (
            arith,
            f.size,
            length-append ((head ++ ps) ++ d) (be32 (status_code rs)),
            length-append (head ++ ps) d,
            length-append head ps,
            length-head,
            length-be32 (status_code rs),
          )))
      ∙ (f.prefix ∙ simp append_assoc)

  -- A broker that has this reply.
  pub record HasReply (b' : Broker) (pkg : ResponsePkg) : Type 0 where
    pub has : b'.resp_pkg ≡ some pkg
    pub alloced : is_alloced b' ≡ true
    pub same_responed : b'.is_responed ≡ b.is_responed
    pub same_len : pkg.data_len ≡ length pkg.bytes
    pub layout : pkg.bytes ≡ be32 (reply_size ps d) ++ reply_body ps d rs

  pub reply-HasReply :
      (b' : Broker) × (pkg : ResponsePkg) × (reply mem proto d rs b ≡ ret b') × HasReply b' pkg
  unfolding reply is_alloced
  reply-HasReply = (
    answered,
    with_status,
    rw (alloc_lem, write_user_lem, set_return_val_lem),
    record {
      has = refl;
      alloced = ground arith;
      same_responed = refl;
      same_len = omega (arith, write_status.1);
      layout = answered_bytes;
    },
  )

  -- A service that asks for a buffer of the length of its data, fills it and returns a status: no
  -- step writes outside the buffer, the buffer is full, and its bytes are the length of what
  -- follows, the length of the inner response, the inner response, the data and the status.
  pub reply_lem :
      (b' : Broker) × (pkg : ResponsePkg) × (reply mem proto d rs b ≡ ret b')
      × (b'.resp_pkg ≡ some pkg)
      × (pkg.data_len ≡ length pkg.bytes)
      × (pkg.bytes ≡ be32 (reply_size ps d) ++ reply_body ps d rs)
  reply_lem =
      let (b', pkg, result, h) = reply-HasReply in (b', pkg, result, h.has, h.same_len, h.layout)
