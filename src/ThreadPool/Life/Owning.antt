-- ===== src/ThreadPool/Life/Owning.antt =====
-- The moves of the owner: the constructor and the destructor.
use rpcframe.Prelude.{
  get_elem?-set_self, All, All-get, All-set, All-append, AllBefore, AllBefore-set, AllBefore-suc,
  AllBefore-end, ℕ, zero, suc, true, Option, none, some, get_elem?, set, ◌≡◌, refl, ret, Safely,
  arith, inl, inr,
}
use rpcframe.ThreadPool.Life.{
  Doing, looking, popping, working, ended, Slot, Owner, making, timing, linking, serving, stopping,
  joining, gone, Life, linked, own_move_at, stop_next, join_next, delete_worker,
}
use rpcframe.ThreadPool.Life.Alive.{IsEnded, IsAlive, HasQueue, IsAt, IsSound}

module _ {T : Type 0} {W : Type 0} (real : W) where
  stop_next-IsSound :
      (i : ℕ) (l : Life T W) (o : Option (Slot T W))
      → get_elem? l.slots i ≡ o
      → All IsAlive l.slots
      → HasQueue l.task_q
      → Safely IsSound (stop_next real i l)
  stop_next-IsSound i l none e a h =
      let out : stop_next real i l ≡ ret (record l { owner = joining 0 }) = ground arith in
      rw out (record { alive = a; at_owner = (h, tt) })
  stop_next-IsSound i l (some s) e a h =
      let out : stop_next real i l
          ≡ ret (record l {
            owner = stopping (suc i);
            slots = set l.slots i (record s { stopped = true });
          }) =
        ground arith in
      rw out (record {
        alive =
            All-set IsAlive l.slots i (record s { stopped = true }) a
              (All-get IsAlive l.slots i s a e);
        at_owner = h;
      })

  delete_worker-IsSound :
      (i : ℕ) (l : Life T W) (s : Slot T W) (d : Doing T)
      → s.thread ≡ d
      → get_elem? l.slots i ≡ some s
      → All IsAlive l.slots
      → HasQueue l.task_q × AllBefore IsEnded i l.slots
      → Safely IsSound (delete_worker real i s l)
  delete_worker-IsSound i l s looking d e a h = rw d tt
  delete_worker-IsSound i l s (popping ms) d e a h = rw d tt
  delete_worker-IsSound i l s (working t) d e a h = rw d tt
  delete_worker-IsSound i l s ended d e a (h, b) =
      let s' : Slot T W = record s { real_worker = none; is_deleted = true } in
      let out : delete_worker real i s l
          ≡ ret (record l { owner = joining (suc i); slots = set l.slots i s' }) =
        ground arith in
      rw out (record {
        alive = All-set IsAlive l.slots i s' a (inl d);
        at_owner = (
          h,
          AllBefore-suc IsEnded i (set l.slots i s') s' (get_elem?-set_self l.slots i s s' e) d
              (AllBefore-set IsEnded i i l.slots s s' e (λ f. f) b),
        );
      })

  join_next-IsSound :
      (i : ℕ) (l : Life T W) (o : Option (Slot T W))
      → get_elem? l.slots i ≡ o
      → All IsAlive l.slots
      → HasQueue l.task_q × AllBefore IsEnded i l.slots
      → Safely IsSound (join_next real i l)
  join_next-IsSound i l none e a (h, b) =
      let out : join_next real i l ≡ ret (record l { owner = gone; task_q = none }) =
        ground arith in
      rw out (record { alive = a; at_owner = AllBefore-end IsEnded i l.slots e b })
  join_next-IsSound i l (some s) e a h =
      let out : join_next real i l ≡ delete_worker real i s l = ground arith in
      rw out (delete_worker-IsSound i l s s.thread refl e a h)

  pub own_move-IsSound_at :
      (o : Owner T W) (l : Life T W)
      → All IsAlive l.slots
      → IsAt o l.task_q l.slots
      → Safely IsSound (own_move_at real o l)
  own_move-IsSound_at (making zero) l a (q, e, k, empty) = record {
    alive = a;
    at_owner = (q, e, k);
  }
  own_move-IsSound_at (making (suc n)) l a h = record { alive = a; at_owner = (h, refl) }
  own_move-IsSound_at (timing n s) l a (h, e) = record {
    alive = a;
    at_owner = (h, (rw e refl, rw e tt, 100, refl));
  }
  own_move-IsSound_at (linking n s) l a (h, (there, idle, ms, tm)) = record {
    alive = All-append IsAlive l.slots (linked real s) a (inr (there, real, refl, ms, tm));
    at_owner = h;
  }
  own_move-IsSound_at serving l a h = record { alive = a; at_owner = h }
  own_move-IsSound_at (stopping i) l a h = stop_next-IsSound i l (get_elem? l.slots i) refl a h
  own_move-IsSound_at (joining i) l a h = join_next-IsSound i l (get_elem? l.slots i) refl a h
  own_move-IsSound_at gone l a h = tt
