-- ===== src/Tests/Channels.antt =====
-- Executions of the broadcaster.
use thesis_code.Prelude.{ℕ, true, false, [], ◌∷◌}
use thesis_code.Broadcaster.{Sub, subscribe, unsub, item, receive, run, fresh}
use thesis_code.Broadcaster.Delivery.{AllServed, run-AllServed}

run-AllServed_example : AllServed (
    run
      (fresh {A = ℕ})
      (subscribe true ∷ item 7 ∷ subscribe true ∷ receive 0 ∷ item 8 ∷ unsub 0 ∷ []))
run-AllServed_example =
    run-AllServed fresh
      (subscribe true ∷ item 7 ∷ subscribe true ∷ receive 0 ∷ item 8 ∷ unsub 0 ∷ []) tt

abbrev full : Sub ℕ
full = record { id = 0; waiting = 100; received = 5 ∷ []; start = 0; dropped = false }
