-- ===== src/Host/Log.antt =====
-- What the log loses of a long message.
use rpcframe.Prelude.{
  ℕ, ◌-◌, ◌<◌, ◌≡◌, refl, false, [], ◌++◌, Str, length, take, take_all, ltb, arith, length-take,
}
use rpcframe.Host.{Level, rpc_log, printed, truncation_note}

-- A message that fits the buffer stands in the line whole, without a note.
fits-printed :
    (text : Str)
    → length text < 4096
    → printed 4096 text ++ truncation_note (length text) ≡ text ++ []
fits-printed text h =
    let none_lost : take (4096 - 1) text ≡ text = take_all (4096 - 1) text (omega arith) in
    let no_note : ltb 4096 (length text) ≡ false = ground arith in rw (none_lost, no_note) refl

-- A message of exactly 4096 bytes loses its last byte, and the line does not say so.
cut_silently :
    (g level : Level) (tv_sec tv_usec : ℕ) (place text : Str)
    → length text ≡ 4096
    → rpc_log g level tv_sec tv_usec place text
      ≡ rpc_log g level tv_sec tv_usec place (take 4095 text)
unfolding rpc_log
cut_silently g level tv_sec tv_usec place text h =
    let len : length (take 4095 text) ≡ 4095 = omega (arith, length-take 4095 text) in
    let again : take (4096 - 1) (take 4095 text) ≡ take (4096 - 1) text =
      take_all (4096 - 1) (take 4095 text) (omega (arith, len)) in
    let no_note : ltb 4096 (length text) ≡ false = ground arith in
    let no_note' : ltb 4096 (length (take 4095 text)) ≡ false = ground (arith, len) in
    rw (no_note, no_note', again) refl
