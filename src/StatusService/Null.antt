-- ===== src/StatusService/Null.antt =====
-- The status page of a server to which a service was added as a null pointer.
use rpcframe.Prelude.{
  codes, ◌++◌, ℕ, ◌<◌, ◌≡◌, refl, false, true, none, some, List, [], ◌∷◌, Str, map, length, assign,
  str_eq, Exec, ret, fault, ◌>>=◌, arith, inl, inr, Bool-cases, Returns, Option-cases, ◌⊎◌,
}
use rpcframe.Package.{RequestPkg}
use rpcframe.Stats.{Stats}
use rpcframe.ThreadPool.{Worker, get_workers}
use rpcframe.RpcWorker
use rpcframe.RpcWorker.{Services, ServiceBlock}
use rpcframe.Server.{Server, Pool, serve_too, add_service, add_to_workers}
use rpcframe.StatusService.{show_methods, show_services, services_part, page}

-- A page is made at once or not at all.
bind-done :
    {A B : Type 0} (x : Exec A) (f : A → Exec B)
    → (x ≡ fault) ⊎ ((a : A) × (x ≡ ret a))
    → ((a : A) → f a ≡ fault)
    → (x >>= f) ≡ fault
bind-done x f (inl e) h = rw e refl
bind-done x f (inr (a, e)) h = rw e (h a)

show_services-done :
    (m : Services) → (show_services m ≡ fault) ⊎ ((s : Str) × (show_services m ≡ ret s))
unfolding show_services
show_services-done [] = inr ([], refl)
show_services-done ((name, b) ∷ m) = elim (show_services-done m) [
  | inl bad ↦ inl (rw bad refl)
  | inr (s, good) ↦ (elim (Option-cases b.srv) [
    | inl missing ↦ inl (rw (good, missing) refl)
    | inr (srv, there) ↦ inr (
      codes "<h2>&nbsp;service name:" ++ (name ++ (codes "</h2>" ++ (show_methods srv ++ s))),
      rw (good, there) refl,
    )
  ])
]

null_shown :
    (name : Str) (m : Services)
    → show_services (assign name (record { srv = none; owner = false }) m) ≡ fault
unfolding show_services assign
null_shown name [] = refl
null_shown name ((j, c) ∷ m) = elim (Bool-cases (str_eq j name)) [
  | inl same ↦ rw same (bind-done (show_services m) _ (show_services-done m) (λ s. refl))
  | inr other ↦ rw (other, null_shown name m) refl
]

null_part :
    (name : Str) (ws : List (Worker RequestPkg Services))
    → 0 < length ws
    → services_part (map (λ w. w.real_worker) (map (serve_too name none) ws)) ≡ fault
unfolding RpcWorker.add_service
null_part name [] pos = absurd (omega arith)
null_part name (w ∷ ws) pos = null_shown name w.real_worker

-- `addService` keeps a null pointer like any other service, in place of the service of that name, if
-- there was one. On a server with a worker the status page then cannot be made, whatever services were
-- added before: it reads through the null pointer.
pub null_service_breaks_page :
    (pid : ℕ) (st : Stats) (name : Str) (s : Server) (p : Pool)
    → s.worker_thread_pool ≡ some p
    → 0 < length p.worker_threads
    → Returns (λ r. (r.0 ≡ true) × (page pid r.1 st ≡ fault)) (add_service name none s)
unfolding add_service add_to_workers page get_workers
null_service_breaks_page pid st name s p e pos =
    rw e (refl, rw (null_part name p.worker_threads pos) refl)
