-- ===== src/RpcConn/Returns.antt =====
-- When RpcServerRpcConn::getRequest comes back to the event loop.
use rpcframe.Prelude.{
  Safely, ℕ, ◌-◌, ◌≤◌, ◌<◌, ◌≡◌, ◌≢◌, refl, ap, if◌then◌else◌, Bool, true, false, not, Option, none,
  some, List, [], ◌∷◌, Str, length, take, splice, ◌==◌, Exec, ret, waiting, fault, ◌>>=◌, inl, inr,
  Bool-cases, arith, length-append, length-take, Returns,
}
use rpcframe.Package.{RequestPkg, Allocator, PkgIoStatus, new_request}
use rpcframe.Net.{
  Errno, clear, eagain, eintr, epipe, other, Arrival, arrived, closed, interrupted, stream,
}
use rpcframe.ServerConn.{ServerConn}
use rpcframe.RpcConn.{
  read_len_loop, read_pkg_len, read_data_loop, read_pkg_data, read_body, finish, start_package,
  get_request, zero_word,
}
use rpcframe.RpcConn.Framing.{Found, read_len_loop-Found}
use rpcframe.RpcConn.Reading.{IsReading, Step, Phase}
use rpcframe.RpcConn.Stream.{get_request_lem, begun}

-- The script does not leave the call waiting.
abbrev Comes {ℓ} : {A : Type ℓ} → Exec A → Type 0
Comes (ret a) = Unit
Comes waiting = ⊥
Comes fault = Unit

Returns-Safely {ℓ} : {A : Type ℓ} (P : A → Type 0) (x : Exec A) → Comes x → Safely P x → Returns P x
Returns-Safely P (ret a) c s = s
Returns-Safely P waiting c s = c
Returns-Safely P fault c s = s

finish-Comes : (r : PkgIoStatus × ServerConn) → Comes (finish r)
finish-Comes (PkgIoStatus.fail, c) = tt
finish-Comes (PkgIoStatus.partial, c) = tt
finish-Comes (PkgIoStatus.time_out, c) = tt
finish-Comes (PkgIoStatus.no_data, c) = tt
finish-Comes (PkgIoStatus.full, c) = tt

bind-Comes : (x : Exec (PkgIoStatus × ServerConn)) → Comes x → Comes (x >>= finish)
bind-Comes (ret r) h = finish-Comes r
bind-Comes waiting h = h
bind-Comes fault h = h

read_len_loop-Comes :
    (n : ℕ) (word : Str) (left : ℕ) (evs : List Arrival)
    → 0 < left
    → left ≤ length (stream evs)
    → Comes (read_len_loop n word left evs)
unfolding read_len_loop
read_len_loop-Comes n word left [] pos h = absurd (omega arith)
read_len_loop-Comes n word left (closed ∷ evs) pos h = absurd (omega arith)
read_len_loop-Comes n word left (interrupted e ∷ evs) pos h =
    ground (arith, read_len_loop-Comes n word left evs pos h)
read_len_loop-Comes n word left (arrived b bs ∷ evs) pos h =
    let got = take left (b ∷ bs) in
    elim (Bool-cases ((left - length got) == 0)) [
      | inl done ↦ rw done tt
      | inr more ↦ rw more (
          read_len_loop-Comes n (splice word (4 - left) got) (left - length got) evs (ground arith)
            (ground (arith, length-take left (b ∷ bs), length-append bs (stream evs))))
    ]

-- The loop over the data ends with the first event that is no interruption.
read_data_loop-Comes :
    (p : RequestPkg) (errno : Errno) (evs : List Arrival) (c : ServerConn)
    → 0 < c.cur_left_len
    → 0 < length (stream evs)
    → Comes (read_data_loop p errno evs c)
unfolding read_data_loop
read_data_loop-Comes p errno [] c pos h = absurd (omega arith)
read_data_loop-Comes p errno (closed ∷ evs) c pos h = absurd (omega arith)
read_data_loop-Comes p errno (interrupted eagain ∷ evs) c pos h = tt
read_data_loop-Comes p errno (interrupted eintr ∷ evs) c pos h =
    read_data_loop-Comes p eintr evs c pos h
read_data_loop-Comes p errno (interrupted clear ∷ evs) c pos h = tt
read_data_loop-Comes p errno (interrupted epipe ∷ evs) c pos h = tt
read_data_loop-Comes p errno (interrupted other ∷ evs) c pos h = tt
read_data_loop-Comes p errno (arrived b bs ∷ evs) c pos h =
    let some_read : (length (take c.cur_left_len (b ∷ bs)) == 0) ≡ false =
      ground (arith, length-take c.cur_left_len (b ∷ bs)) in
    rw some_read (ground arith)

read_body-Comes :
    (o : Option RequestPkg) (c : ServerConn)
    → c.rpk ≡ o
    → (o ≢ none → 0 < c.cur_left_len)
    → 0 < length (stream c.sock.incoming)
    → Comes (read_body c)
unfolding read_body read_pkg_data
read_body-Comes none c e pos h = bind-Comes (read_pkg_data c) (ground arith)
read_body-Comes (some p) c e pos h =
    bind-Comes (read_pkg_data c)
      (ground (arith, read_data_loop-Comes p clear c.sock.incoming c (pos (λ k. cc)) h))

start-Comes :
    (mem : Allocator) (c : ServerConn) (had : Str) (x : Exec (Bool × ℕ × List Arrival))
    → c.cur_pkg_size ≡ 0
    → Comes x
    → Found c.cur_pkg_size [] had x
    → 4 < length had
    → Comes (x >>= start_package mem c)
start-Comes mem c had waiting z h f l = h
start-Comes mem c had fault z h f l = tt
start-Comes mem c had (ret (false, n, evs)) z h f l = tt
start-Comes mem c had (ret (true, n, evs)) z h (inl f) l = ground (arith, f.same_len)
start-Comes mem c had (ret (true, n, evs)) z h (inr f) l =
    let more : 0 < length (stream evs) =
      omega (arith, ap length f.split, length-append f.w (stream evs), f.four) in
    elim (Bool-cases (n == 0)) [
      | inl none_yet ↦ rw none_yet tt
      | inr some_size ↦ ground (
        arith,
        read_body-Comes (some (new_request mem n c.seqid)) (begun mem c n evs) refl
            (λ k. ground arith) more,
      )
    ]

header-Comes :
    (mem : Allocator) (c : ServerConn)
    → IsReading c
    → c.cur_pkg_size ≡ 0
    → 4 < length (stream c.sock.incoming)
    → Comes (read_pkg_len c >>= start_package mem c)
unfolding read_pkg_len
header-Comes mem c r z l = elim (Bool-cases (not c.is_connected)) [
  | inl off ↦ rw off tt
  | inr on ↦ rw on (
      start-Comes mem c (stream c.sock.incoming)
        (read_len_loop c.cur_pkg_size zero_word 4 c.sock.incoming) z
        (read_len_loop-Comes c.cur_pkg_size zero_word 4 c.sock.incoming (omega arith) (omega arith))
        (read_len_loop-Found c.cur_pkg_size [] zero_word 4 c.sock.incoming refl refl (omega arith)
          (omega arith) tt r.bytes)
        l)
]

missing_pos :
    (o : Option RequestPkg) (size left limit : ℕ) (id : Str)
    → Phase o size left limit id
    → o ≢ none
    → 0 < left
missing_pos none size left limit id h ne = absurd (ne refl)
missing_pos (some p) size left limit id h ne = h.missing

-- Between two calls the script must have five bytes, within a package one.
abbrev pub IsComing : ServerConn → Type 0
IsComing c =
    if c.cur_pkg_size == 0
    then 4 < length (stream c.sock.incoming)
    else 0 < length (stream c.sock.incoming)

-- `getRequest` returns, with what `get_request_lem` says, where a header comes with a byte behind it,
-- or within a package a byte.
pub get_request-Comes :
    (mem : Allocator) (c : ServerConn)
    → IsReading c
    → IsComing c
    → Returns (Step c) (get_request mem c)
unfolding get_request
get_request-Comes mem c r h =
    Returns-Safely (Step c) (get_request mem c)
      (elim (Bool-cases (c.cur_pkg_size == 0)) [
        | inl idle ↦ rw (idle, get_request) (header-Comes mem c r (ground arith) (rw idle at h))
        | inr busy ↦
            rw (busy, get_request)
              (read_body-Comes c.rpk c refl
                (missing_pos c.rpk c.cur_pkg_size c.cur_left_len c.max_req_limit c.seqid r.phase)
                (rw busy at h))
      ])
      (get_request_lem mem c r)

-- `getRequest` returns, with what `get_request_lem` says, as soon as five bytes are on the way: it
-- spins only on a header that has begun to arrive.
get_request-Returns :
    (mem : Allocator) (c : ServerConn)
    → IsReading c
    → 4 < length (stream c.sock.incoming)
    → Returns (Step c) (get_request mem c)
get_request-Returns mem c r l = get_request-Comes mem c r (ground arith)
