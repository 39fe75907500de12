-- ===== src/Core/Echo/Runs.antt =====
-- Concrete runs of the echo guard, and the theorems at concrete inputs.
use asli.Prelude.{◌≡◌, refl, true, false, [], ◌∷◌, none, arith}
use asli.Core.Echo.{
  EchoGuard, new, remember, take_echo, expire_entries, retain_other, position, remove_at, pop_front,
  len,
}
use asli.Core.Echo.Laws.{IsValid}
use asli.Core.Echo.Remembering.{take_echo-remember}

abbrev guard : EchoGuard
guard = record {
  entries = record { hash = 1; at_ms = 0 } ∷ record { hash = 2; at_ms = 10 } ∷ [];
  capacity = 3;
  ttl_ms = 1000;
}

guard-IsValid : IsValid 10 guard
guard-IsValid = record { room = omega arith; bounded = omega arith; ordered = omega arith }

new_refused : new 0 1000 ≡ none
unfolding new
new_refused = refl

taken_once : (take_echo guard 2 20).1 ≡ true
unfolding take_echo expire_entries position remove_at
taken_once = refl

expired_hash : (take_echo guard 1 1005).1 ≡ false
unfolding take_echo expire_entries position remove_at
expired_hash = refl

oldest_makes_room : len (remember (remember guard 3 20) 4 30) ≡ 3
unfolding remember expire_entries retain_other pop_front len
oldest_makes_room = refl

take_echo-remember_example :
    ((take_echo (remember guard 3 20) 3 500).1 ≡ true)
    × ((take_echo (take_echo (remember guard 3 20) 3 500).0 3 600).1 ≡ false)
take_echo-remember_example =
    take_echo-remember guard 3 10 20 500 600 guard-IsValid (omega arith) (omega arith) (omega arith)
      (omega arith)
