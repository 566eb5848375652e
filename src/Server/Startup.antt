-- ===== src/Server/Startup.antt =====
-- Which sockets a server has after `start`, and what is left after `stop`.
use rpcframe.Prelude.{
  ℕ, ◌≡◌, refl, Bool, true, false, ◌&&◌, ◌||◌, not, Option, none, some, List, [], ◌∷◌, ◌++◌,
  if◌then◌else◌, arith, inl, inr, Bool-cases, Option-cases,
}
use rpcframe.ConnWorker.{ConnWorker}
use rpcframe.Server.{
  Server, Answers, listen_on, start_listen, start, with_socket, is_enabled, listen_rpc,
}

-- The descriptors that `socket` gave.
abbrev pub opened : Option ℕ → List ℕ
opened none = []
opened (some fd) = fd ∷ []

abbrev pub is_some : Option ℕ → Bool
is_some none = false
is_some (some fd) = true

-- The system grants all that listening takes.
abbrev pub grants : Answers → Bool
grants a = is_some a.socket && a.nonblock && a.bound && a.listening

-- A port that the system does not grant leaves its socket open.
start_listen-lost :
    (a : Answers) → start_listen a ≡ (if grants a then (a.socket, []) else (none, opened a.socket))
unfolding start_listen listen_on
start_listen-lost a = ground arith

-- Whether `start` gets to the port of rpcframe's own protocol.
abbrev pub goes_on : Server → Answers → Bool
goes_on s http = not (is_enabled s.cfg.http_port) || grants http

-- The socket of HTTP, for the workers.
abbrev pub http_socket : Server → Answers → Option ℕ
http_socket s http = if is_enabled s.cfg.http_port then http.socket else s.httplisten

granted :
    (a : Answers)
    → grants a ≡ true
    → (fd : ℕ) × (start_listen a ≡ (some fd, [])) × (a.socket ≡ some fd)
granted a h = elim (Option-cases a.socket) [
  | inl missing ↦ absurd (ground (arith, missing))
  | inr (fd, there) ↦ (fd, ground (arith, start_listen-lost a), there)
]

refused : (a : Answers) → grants a ≡ false → start_listen a ≡ (none, opened a.socket)
refused a h = ground (arith, start_listen-lost a)

module _ (http rpc : Answers) (before : List ℕ) (s : Server) where
  abbrev after_http : Option (List (ConnWorker × Option ℕ)) × List ℕ × Server
  after_http = listen_rpc (start_listen rpc) before s

  rpc_started :
      (after_http.0 ≡ (
        if grants rpc
        then some
            (with_socket rpc.socket s.rpcconnworker ++ with_socket s.httplisten s.httpconnworker)
        else none))
      × (after_http.1 ≡ before ++ (if grants rpc then [] else opened rpc.socket))
  rpc_started = elim (Bool-cases (grants rpc)) [
    | inl good ↦ (let (fd, e, there) = granted rpc good in rw (good, e, there) (refl, refl))
    | inr bad ↦ (let e = refused rpc bad in rw (bad, e) (refl, refl))
  ]

-- `start` makes its threads where the system grants the port of HTTP, if there is one, and that of
-- rpcframe's own protocol: each connection worker with the socket of its protocol. Otherwise it returns
-- false, and the socket of the port that was not granted stays open though no variable has it.
pub start_lem :
    (http rpc : Answers) (s : Server)
    → ((start http rpc s).0 ≡ (
        if goes_on s http && grants rpc
        then some (
            with_socket rpc.socket s.rpcconnworker
            ++ with_socket (http_socket s http) s.httpconnworker)
        else none))
      × ((start http rpc s).1 ≡ (
          if goes_on s http
          then (if grants rpc then [] else opened rpc.socket)
          else opened http.socket))
unfolding start
start_lem http rpc s = elim (Bool-cases (is_enabled s.cfg.http_port)) [
  | inr off ↦ rw off (rpc_started http rpc [] s)
  | inl on ↦ (elim (Bool-cases (grants http)) [
    | inl good ↦
        (let (fd, e, there) = granted http good in
          rw (on, good, e, there) (rpc_started http rpc [] (record s { httplisten = some fd })))
    | inr bad ↦ (let e = refused http bad in rw (on, bad, e) (refl, refl))
  ])
]
