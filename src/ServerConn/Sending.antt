-- ===== src/ServerConn/Sending.antt =====
-- RpcServerConn::sendResponse puts the responses on the wire whole and in the order of the queue,
-- however the kernel cuts the transfer up.
use rpcframe.Prelude.{
  ℕ, ◌+◌, ◌-◌, ◌^◌, ◌≤◌, ◌<◌, ◌≡◌, refl, true, false, Option, none, some, List, [], ◌∷◌, ◌++◌, Str,
  ap, ◌∙◌, sym, append_assoc, length, take, drop, min, Exec, ret, waiting, fault, Returns,
  take-append-drop, drop-drop, drop_all, arith, Bool-cases, inl, ap₂, inr,
}
use rpcframe.Package.{PkgIoStatus, fail, partial, no_data, full, time_out, ResponsePkg}
use rpcframe.Net.{eagain, eintr, epipe, other, clear, Room, room, refuse}
use rpcframe.Stats.{Stats, calc_resp_q_time}
use rpcframe.ServerConn.{
  ServerConn, is_sending, send_loop, send_response, to_send, sent, with_stats,
}

-- A response whose buffer is as long as it says, and of a length that `int` holds.
abbrev pub IsWhole : ResponsePkg → Type 0
IsWhole p = (p.data_len ≡ length p.bytes) × (p.data_len < 2 ^ 31)

abbrev pub AreWhole : List ResponsePkg → Type 0
AreWhole [] = Unit
AreWhole (p ∷ ps) = IsWhole p × AreWhole ps

abbrev pub IsInFlight : Option ResponsePkg → ℕ → Type 0
IsInFlight none n = Unit
IsInFlight (some p) n = IsWhole p × (n ≤ p.data_len)

pub record IsSendable (c : ServerConn) : Type 0 where
  pub in_flight : IsInFlight c.sent_pkg c.sent_len
  pub queued : AreWhole c.response_q.items

-- The bytes that the connection owes its peer.
abbrev pub rest_of : Option ResponsePkg → ℕ → Str
rest_of none n = []
rest_of (some p) n = drop n p.bytes

abbrev pub all_bytes : List ResponsePkg → Str
all_bytes [] = []
all_bytes (p ∷ ps) = p.bytes ++ all_bytes ps

abbrev pub unsent : ServerConn → Str
unsent c = rest_of c.sent_pkg c.sent_len ++ all_bytes c.response_q.items

-- The kernel answers at last: it does not interrupt `send` for ever.
abbrev pub Answers : List Room → Type 0
Answers [] = ⊥
Answers (room k ∷ evs) = Unit
Answers (refuse eintr ∷ evs) = Answers evs
Answers (refuse e ∷ evs) = Unit

-- What each status says of the connection.
abbrev pub Means : PkgIoStatus → ServerConn → ServerConn → Type 0
Means full c c' = (c'.sent_pkg ≡ none) × (c'.sent_len ≡ 0)
Means partial c c' = is_sending c' ≡ true
Means no_data c c' = (unsent c ≡ []) × (c'.sock.wire ≡ c.sock.wire)
Means fail c c' = c'.sock.wire ≡ c.sock.wire
Means time_out c c' = ⊥

pub record Progress (c : ServerConn) (r : PkgIoStatus × ServerConn) : Type 0 where
  pub owed : r.1.sock.wire ++ unsent r.1 ≡ c.sock.wire ++ unsent c
  pub sendable : IsSendable r.1
  pub means : Means r.0 c r.1

-- Taking `n` bytes off the front of the rest of a response.
drop-split : (m n : ℕ) (xs : Str) → take n (drop m xs) ++ drop (m + n) xs ≡ drop m xs
drop-split m n xs = rw (← drop-drop m n xs) (take-append-drop n (drop m xs))

wire_step :
    (w : Str) (m n : ℕ) (xs q : Str)
    → (w ++ take n (drop m xs)) ++ (drop (m + n) xs ++ q) ≡ w ++ (drop m xs ++ q)
wire_step w m n xs q =
    append_assoc w (take n (drop m xs)) (drop (m + n) xs ++ q)
    ∙ ap (◌++◌ w) (
        sym (append_assoc (take n (drop m xs)) (drop (m + n) xs) q)
        ∙ ap (λ (l : Str). l ++ q) (drop-split m n xs))

pub to_send-eq :
    (p : ResponsePkg) (n : ℕ) → IsWhole p → n ≤ p.data_len → to_send p n ≡ p.data_len - n
to_send-eq p n w h = ground arith

sent-Progress :
    (p : ResponsePkg) (n : ℕ) (evs : List Room) (c : ServerConn)
    → IsSendable c
    → c.sent_pkg ≡ some p
    → IsWhole p
    → c.sent_len + n ≤ p.data_len
    → Progress c (sent p n evs c)
unfolding is_sending
sent-Progress p n evs c s e w h = ground (
  arith,
  wire_step c.sock.wire c.sent_len n p.bytes (all_bytes c.response_q.items),
  drop_all (c.sent_len + n) p.bytes,
)

send_loop-Progress :
    (p : ResponsePkg) (evs : List Room) (c : ServerConn)
    → IsSendable c
    → c.sent_pkg ≡ some p
    → IsWhole p
    → c.sent_len ≤ p.data_len
    → Answers evs
    → Returns (Progress c) (send_loop p evs c)
unfolding send_loop is_sending
send_loop-Progress p [] c s e w h a = elim a [ ]
send_loop-Progress p (room k ∷ evs) c s e w h a = ground (
  arith,
  to_send-eq p c.sent_len w h,
  sent-Progress p (min (to_send p c.sent_len) (k + 1)) evs c s e w,
)
send_loop-Progress p (refuse eagain ∷ evs) c s e w h a = ground arith
send_loop-Progress p (refuse eintr ∷ evs) c s e w h a = send_loop-Progress p evs c s e w h a
send_loop-Progress p (refuse epipe ∷ evs) c s e w h a = ground arith
send_loop-Progress p (refuse clear ∷ evs) c s e w h a = ground arith
send_loop-Progress p (refuse other ∷ evs) c s e w h a = ground arith

-- The same of `sendResponse`, whose result has the statistics too.
abbrev pub Kept : ServerConn → PkgIoStatus × ServerConn × Stats → Type 0
Kept c (st, c', s) = Progress c (st, c')

Means-from :
    (c c' d : ServerConn) (st : PkgIoStatus)
    → unsent c' ≡ unsent c
    → c'.sock.wire ≡ c.sock.wire
    → Means st c' d
    → Means st c d
Means-from c c' d fail e w m = m ∙ w
Means-from c c' d partial e w m = m
Means-from c c' d time_out e w m = m
Means-from c c' d no_data e w m = (sym e ∙ m.0, m.1 ∙ w)
Means-from c c' d full e w m = m

-- Moving the next response from the queue into flight changes nothing that is owed.
Kept-with_stats :
    (c c' : ServerConn) (s : Stats) (r : Exec (PkgIoStatus × ServerConn))
    → unsent c' ≡ unsent c
    → c'.sock.wire ≡ c.sock.wire
    → Returns (Progress c') r
    → Returns (Kept c) (with_stats s r)
Kept-with_stats c c' s (ret (st, d)) e w k = record {
  owed = k.owed ∙ ap₂ ◌++◌ w e;
  sendable = k.sendable;
  means = Means-from c c' d st e w k.means;
}
Kept-with_stats c c' s waiting e w k = k
Kept-with_stats c c' s fault e w k = k

sending-Kept :
    (o : Option ResponsePkg) (now : ℕ) (c : ServerConn) (s : Stats)
    → c.sent_pkg ≡ o
    → is_sending c ≡ true
    → IsSendable c
    → Answers c.sock.outgoing
    → Returns (Kept c) (send_response now c s)
unfolding send_response is_sending
sending-Kept none now c s e b v a = cc
sending-Kept (some p) now c s e b v a =
    let f : IsInFlight (some p) c.sent_len = rw e at v.in_flight in
    ground (
      arith,
      Kept-with_stats c c s (send_loop p c.sock.outgoing c) refl refl
          (send_loop-Progress p c.sock.outgoing c v e f.0 f.1 a),
    )

starting-Kept :
    (l : List ResponsePkg) (now : ℕ) (c : ServerConn) (s : Stats)
    → c.response_q.items ≡ l
    → is_sending c ≡ false
    → IsSendable c
    → Answers c.sock.outgoing
    → Returns (Kept c) (send_response now c s)
unfolding send_response is_sending
starting-Kept [] now c s e b v a = ground arith
starting-Kept (p ∷ ps) now c s e b v a =
    let c' : ServerConn = record c {
      response_q = record c.response_q { items = ps };
      sent_len = 0;
      sent_pkg = some p;
    } in
    let v' : IsSendable c' = ground arith in
    let k : Returns (Progress c') (send_loop p c.sock.outgoing c') =
      send_loop-Progress p c.sock.outgoing c' v' refl v'.in_flight.0 (omega arith) a in
    ground (
      arith,
      Kept-with_stats c c' (calc_resp_q_time (now - p.gen_time) s) (send_loop p c.sock.outgoing c')
          (ground arith) refl k,
    )

-- Every call of `sendResponse` returns, with the bytes on the wire and the bytes still owed in order
-- and complete: none is lost, sent twice or out of turn, whatever part of a response the kernel
-- takes and however `send` fails. The responses are as long as they say, below 2 ^ 31 bytes, and the
-- kernel does not interrupt `send` for ever.
pub send_response_lem :
    (now : ℕ) (c : ServerConn) (s : Stats)
    → IsSendable c
    → Answers c.sock.outgoing
    → Returns (Kept c) (send_response now c s)
send_response_lem now c s v a = elim (Bool-cases (is_sending c)) [
  | inl busy ↦ sending-Kept c.sent_pkg now c s refl busy v a
  | inr idle ↦ starting-Kept c.response_q.items now c s refl idle v a
]
