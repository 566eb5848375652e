-- ===== src/Server/Serving.antt =====
-- Every worker of the pool knows every service.
use rpcframe.Prelude.{
  ℕ, zero, suc, ◌≡◌, refl, ap, ◌∙◌, false, Option, none, some, List, [], ◌∷◌, Str, codes, map, find,
  find-assign, str_eq, if◌then◌else◌, Exec, ret, ◌>>=◌, Returns, arith, length,
}
use rpcframe.Package.{RequestPkg}
use rpcframe.Config.{Config}
use rpcframe.ThreadPool
use rpcframe.ThreadPool.{ThreadPool, Worker, get_workers, copies, set_task_q_size}
use rpcframe.RpcWorker
use rpcframe.RpcWorker.{Service, Services, ServiceBlock}
use rpcframe.Server.{Server, Pool, make, serve_too, add_service, add_to_workers}

-- Calls of `addService`, in order.
unfoldable pub add_all : List (Str × Service) → Server → Exec Server
unfolding add_service
add_all [] s = ret s
add_all ((name, srv) ∷ es) s = add_service name (some srv) s >>= λ r. add_all es r.1

-- The last service that was added under a name.
abbrev pub last_added : Str → List (Str × Service) → Option Service → Option Service
last_added name [] o = o
last_added name ((n, srv) ∷ es) o = last_added name es (if str_eq n name then some srv else o)

-- The service in the block that the workers keep.
abbrev pub block : Option Service → Option ServiceBlock
block none = none
block (some srv) = some (record { srv = some srv; owner = false })

abbrev pub Serve : (Str → Option Service) → List (Worker RequestPkg Services) → Type 0
Serve f [] = Unit
Serve f (w ∷ ws) = ((name : Str) → find name w.real_worker ≡ block (f name)) × Serve f ws

abbrev pub IsServing : (Str → Option Service) → ℕ → Server → Type 0
IsServing f n s = elim s.worker_thread_pool [
  | none ↦ ⊥
  | some p ↦ Serve f p.worker_threads × (length p.worker_threads ≡ n)
]

abbrev with_service : Str → Service → (Str → Option Service) → Str → Option Service
with_service n srv f name = if str_eq n name then some srv else f name

added :
    (n : Str) (srv : Service) (f : Str → Option Service) (m : Services) (name : Str)
    → find name m ≡ block (f name)
    → find name (RpcWorker.add_service n (some srv) false m) ≡ block (with_service n srv f name)
unfolding RpcWorker.add_service
added n srv f m name e =
    ground (arith, find-assign n name (record { srv = some srv; owner = false }) m)

map-Serve :
    (n : Str) (srv : Service) (f : Str → Option Service) (ws : List (Worker RequestPkg Services))
    → Serve f ws
    → Serve (with_service n srv f) (map (serve_too n (some srv)) ws)
map-Serve n srv f [] h = tt
map-Serve n srv f (w ∷ ws) (h, hs) =
    ((λ name. added n srv f w.real_worker name (h name)), map-Serve n srv f ws hs)

length-map :
    (n : Str) (srv : Service) (ws : List (Worker RequestPkg Services))
    → length (map (serve_too n (some srv)) ws) ≡ length ws
length-map n srv [] = refl
length-map n srv (w ∷ ws) = ap suc (length-map n srv ws)

pool_serves :
    (n : Str) (srv : Service) (f : Str → Option Service) (k : ℕ) (p : Pool)
    → Serve f p.worker_threads
    → length p.worker_threads ≡ k
    → Serve (with_service n srv f) (add_to_workers n (some srv) p).worker_threads
      × (length (add_to_workers n (some srv) p).worker_threads ≡ k)
unfolding add_to_workers
pool_serves n srv f k p h e =
    (map-Serve n srv f p.worker_threads h, length-map n srv p.worker_threads ∙ e)

add_all-Serving :
    (es : List (Str × Service)) (f : Str → Option Service) (k : ℕ) (p : Pool) (s : Server)
    → s.worker_thread_pool ≡ some p
    → Serve f p.worker_threads
    → length p.worker_threads ≡ k
    → Returns (IsServing (λ name. last_added name es (f name)) k) (add_all es s)
unfolding add_all add_service
add_all-Serving [] f k p s e h l = rw e (h, l)
add_all-Serving ((n, srv) ∷ es) f k p s e h l =
    let q : Pool = add_to_workers n (some srv) p in
    let (h', l') = pool_serves n srv f k p h l in
    rw e (
      add_all-Serving es (with_service n srv f) k q (record s { worker_thread_pool = some q }) refl
        h' l')

copies-Serve : (n : ℕ) → Serve (λ name. none) (copies n [])
unfolding find
copies-Serve zero = tt
copies-Serve (suc n) = ((λ name. refl), copies-Serve n)

length-copies : (n : ℕ) → length (copies {T = RequestPkg} {W = Services} n []) ≡ n
length-copies zero = refl
length-copies (suc n) = ap suc (length-copies n)

fresh_serves :
    (n size : ℕ)
    → Serve
        (λ name. none)
        (set_task_q_size {T = RequestPkg} {W = Services} size (ThreadPool.make n [])).worker_threads
      × (length
            (set_task_q_size {T = RequestPkg} {W = Services} size
              (ThreadPool.make n [])).worker_threads
          ≡ n)
unfolding set_task_q_size ThreadPool.make
fresh_serves n size = (copies-Serve n, length-copies n)

-- What a new server knows.
abbrev pub at_first : Service → Str → Option Service
at_first status name = if str_eq (codes "status") name then some status else none

-- A server is made, and services are added. Every call returns; the pool has as many workers as the
-- configuration says; and each of them finds under every name the service that was added last under it,
-- or, for "status", the server's own where there is none.
pub services_everywhere :
    (cfg : Config) (status : Service) (es : List (Str × Service))
    → Returns
        (IsServing (λ name. last_added name es (at_first status name)) cfg.thread_num)
        (add_all es (make cfg status))
unfolding make
services_everywhere cfg status es =
    let raw : Pool = set_task_q_size cfg.max_req_qsize (ThreadPool.make cfg.thread_num []) in
    let (h, l) = fresh_serves cfg.thread_num cfg.max_req_qsize in
    let (h', l') = pool_serves (codes "status") status (λ name. none) cfg.thread_num raw h l in
    add_all-Serving es (at_first status) cfg.thread_num
      (add_to_workers (codes "status") (some status) raw) (make cfg status) refl h' l'
