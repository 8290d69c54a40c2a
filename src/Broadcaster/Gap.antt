-- ===== src/Broadcaster/Gap.antt =====
-- What a subscriber that was dropped may still receive.
use thesis_code.Prelude.{ℕ, ==_iff, true, List, [], ◌∷◌, ◌++◌, ◌≡◌, refl, arith}
use thesis_code.Broadcaster.{Sub, Broadcaster, item, receive, sub_size, run}

-- A full channel misses an item, and yet gets the next one if the subscriber reads in between and
-- the goroutine that removes the channel has not run: its last items are `y` after what it had
-- received, without `x`.
pub gap_after_drop :
    {A : Type 0} (sub : Sub A) (streamed : List A) (next : ℕ) (x y : A)
    → sub.waiting ≡ sub_size
    → let b : Broadcaster A = record {
      running = true;
      subs = sub ∷ [];
      streamed = streamed;
      next = next;
    } in
      (run b (item x ∷ receive sub.id ∷ item y ∷ [])).subs
      ≡ record sub { waiting = sub_size; received = sub.received ++ y ∷ []; dropped = true } ∷ []
unfolding run
gap_after_drop sub streamed next x y h = ground (arith, (==_iff sub.id sub.id).1 refl)
