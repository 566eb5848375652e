-- ===== src/ClientConn/Stale.antt =====
-- A connection that broke in the middle of a response and is connected anew.
use rpcframe.Prelude.{
  ℕ, ◌≡◌, ◌∙◌, ◌<◌, refl, true, false, Option, none, some, List, ret, fault, ◌==◌, arith, inl, inr,
  Bool-cases,
}
use rpcframe.Package.{ResponsePkg, Allocator}
use rpcframe.Net.{Arrival}
use rpcframe.ClientConn.{ClientConn, reading, failed, get_response, read_pkg_data, read_pkg_len}
use rpcframe.ClientConn.Connect.{Attempt, connect, connect_host, set_invalid}

-- A part of a response was read when the connection was given up. Once it is connected again, the
-- next call of `getResponse` reads into the package that was deleted.
pub reconnect_uses_freed :
    (mem : Allocator) (c : ClientConn) (p : ResponsePkg) (down up fd : ℕ)
    (host : Option (List Attempt)) (incoming : List Arrival)
    → c.rpk ≡ reading p
    → 0 < c.cur_pkg_size
    → c.is_connected ≡ true
    → (connect_host host).0 ≡ some fd
    → get_response mem (connect up host incoming (set_invalid down c)).1 ≡ fault
unfolding get_response read_pkg_data connect set_invalid
reconnect_uses_freed mem c p down up fd host incoming e pos on dial = ground arith

-- By the package that is being read, and by whether one is.
off-failed :
    (mem : Allocator) (d : ClientConn)
    → d.is_connected ≡ false
    → (d' : ClientConn) × (get_response mem d ≡ ret (failed, d'))
unfolding get_response read_pkg_len read_pkg_data
off-failed mem d off = elim (Bool-cases (d.cur_pkg_size == 0)) [
  | inl idle ↦ (record d { incoming = d.incoming; cur_pkg_size = d.cur_pkg_size }, ground arith)
  | inr busy ↦ (d, ground arith)
]

connect-is_connected :
    (o : Option ℕ) (up : ℕ) (host : Option (List Attempt)) (incoming : List Arrival)
    (d : ClientConn)
    → (connect_host host).0 ≡ o
    → (connect up host incoming d).1.is_connected ≡ d.is_connected
unfolding connect
connect-is_connected none up host incoming d e = ground arith
connect-is_connected (some fd) up host incoming d e = ground arith

-- A connection on which a `send` failed once receives no more, whatever connecting it again gives.
pub send_failure_is_final :
    (mem : Allocator) (c : ClientConn) (down up : ℕ) (host : Option (List Attempt))
    (incoming : List Arrival)
    → c.is_connected ≡ false
    → (c' : ClientConn) × (get_response mem (connect up host incoming (set_invalid down c)).1
        ≡ ret (failed, c'))
unfolding set_invalid
send_failure_is_final mem c down up host incoming off =
    off-failed mem (connect up host incoming (set_invalid down c)).1
      (connect-is_connected (connect_host host).0 up host incoming (set_invalid down c) refl ∙ off)
