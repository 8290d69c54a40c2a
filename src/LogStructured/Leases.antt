-- ===== src/LogStructured/Leases.antt =====
-- logstructured.go, ttl and ttlEvents: the events that carry a lease, and the deletion of their keys
-- when the lease is over. The two goroutines of ttlEvents are two functions: the one that reads the
-- events that are there, and the one that reads those of the watch.
pub mod Pages
use thesis_code.Prelude.{
  ℕ, zero, suc, Bytes, codes, ℤ, pos, ltb_ℤ, Bool, false, List, [], ◌∷◌, ◌++◌, Option, none, some,
  Exec, pure, out_of_fuel, map_result, ◌>>=◌, if◌then◌else◌,
}
use thesis_code.Server.Types.{KeyValue, Event, Err}
use thesis_code.LogStructured.{Log, deref, delete, KvResult}

module _ {S : Type 0} where
  -- The events of a list that carry a lease. A nil pointer that is read panics.
  unfoldable pub leased : List Event → Exec S (List Event)
  leased [] = pure []
  leased (event ∷ events) =
      let rest = leased events in
      deref event.kv
        λ kv. map_result (λ found. if ltb_ℤ (pos 0) kv.lease then event ∷ found else found) rest

  -- The events of the watch, list after list.
  unfoldable pub watch_leased : List (List Event) → Exec S (List Event)
  unfolding leased
  watch_leased [] = pure []
  watch_leased (events ∷ batches) =
      let rest = watch_leased batches in
      leased events >>= λ found. map_result (λ more. found ++ more) rest

abbrev pub last_kv : Event → List Event → Option KeyValue
last_kv event [] = event.kv
last_kv event (next ∷ events) = last_kv next events

module _ {S : Type 0} (log : Log S) where
  abbrev pub page : Bytes → ℤ → Exec S (ℤ × List Event × Err)
  page start_key revision = log.list (codes "/") start_key (pos 1000) revision false

  -- The loop over the pages. It ends at an empty one, also if there is an error with it, and at an
  -- error. The pages behind the first are listed at the revision that came with the first.
  unfoldable pub pages_leased : ℕ → ℤ → List Event × Err → Exec S (List Event)
  unfolding leased
  pages_leased fuel rev ([], err) s = pure [] s
  pages_leased zero rev (event ∷ events, err) s = out_of_fuel
  pages_leased (suc fuel) rev (event ∷ events, some e) s = pure [] s
  pages_leased (suc fuel) rev (event ∷ events, none) s =
      let next = λ (answer : List Event × Err) (t : S). pages_leased fuel rev answer t in
      (leased (event ∷ events) >>= λ found. deref (last_kv event events) λ kv.
          page kv.key rev >>= λ (_, more, err).
          map_result (λ rest. found ++ rest) (next (more, err)))
        s

  unfoldable pub old_leased : ℕ → Exec S (List Event)
  unfolding pages_leased
  old_leased fuel = page [] (pos 0) >>= λ (rev, events, err). pages_leased fuel rev (events, err)

  -- What the goroutine of one event does when its lease is over; an error is logged.
  unfoldable pub expire : Event → Exec S (Unit {0})
  unfolding delete
  expire event = deref event.kv λ kv. map_result (λ _. tt) (delete log kv.key kv.mod_revision)
