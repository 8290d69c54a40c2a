-- ===== src/Tests/Leases.antt =====
-- The theorems on leases at a concrete input.
use thesis_code.Prelude.{
  Bytes, ℤ, List, arith, Returns, codes, bytes_eq, bytes_eq-eq, pos, true, false, Bool-cases, inl,
  inr, [], ◌∷◌, ◌++◌, none, some, pure, Ends, ◌≡◌, refl,
}
use thesis_code.Server.Types.{KeyValue, Event}
use thesis_code.LogStructured.{Log}
use thesis_code.LogStructured.Leases.{old_leased}
use thesis_code.LogStructured.Leases.Pages.{old_leased_lem}
use thesis_code.Nats.Bucket.{Operation, Entry}
use thesis_code.Nats.Driver.{JsValue, Driver, get_kv}
use thesis_code.Nats.Driver.Contract.{DriverLaws, Holds}
use thesis_code.Nats.Driver.Expiry.{Gone, get_kv_expired}
use thesis_code.Tests.MemoryBucket.{Stream, AnyKey, stream_view, toy_driver, toy_driver-Laws}
use thesis_code.Tests.Buckets.{pod}

-- Six seconds after the start of the clock.
abbrev late_driver : Driver Stream
late_driver = record toy_driver { now = pure (pos 6000000000) }

late_driver-Laws : DriverLaws late_driver stream_view AnyKey
late_driver-Laws = record {
  bucket = toy_driver-Laws.bucket;
  json = toy_driver-Laws.json;
  now_lem = λ s. (refl, λ k _. refl);
  lock_lem = toy_driver-Laws.lock_lem;
  unlock_lem = toy_driver-Laws.unlock_lem;
}

-- A value with a lease of five seconds.
abbrev leased_entry : Entry
leased_entry = record {
  key = pod;
  value = 1 ∷ 0 ∷ 0 ∷ 0 ∷ 0 ∷ 0 ∷ 0 ∷ 0 ∷ 0 ∷ 5 ∷ 16 ∷ codes "/registry/pods/a" ++ codes "v1";
  revision = 1;
  created = pos 0;
  operation = Operation.key_value_put;
}

abbrev leased_kv : KeyValue
leased_kv = record {
  key = pod;
  create_revision = pos 0;
  mod_revision = pos 0;
  value = codes "v1";
  lease = pos 5;
}

abbrev leased_value : JsValue
leased_value = record { kv = some leased_kv; prev_revision = pos 0; create = true; delete = false }

some-inj : (e f : Entry) → some e ≡ some f → e ≡ f
some-inj e f h = cc

leased-Holds : Holds late_driver stream_view AnyKey (leased_entry ∷ [])
leased-Holds key _ e h = elim (Bool-cases (bytes_eq pod key)) [
  | inl y ↦
      let same = some-inj leased_entry e (rw y at h) in
      rw (← same) (leased_value, leased_kv, refl, refl, refl, bytes_eq-eq pod key y)
  | inr y ↦ let none_there = rw y at h in absurd (cc)
]

get_kv_expired_example :
    Ends
      (λ a t.
        (a ≡ (pos 1, none, none))
        × Gone late_driver stream_view AnyKey late_driver-Laws leased_entry (leased_entry ∷ []) t)
      (get_kv late_driver pod [] (pos 0) (pos 0) (leased_entry ∷ []))
unfolding bytes_eq
get_kv_expired_example =
    get_kv_expired late_driver stream_view AnyKey late_driver-Laws leased_entry [] (pos 0)
      (leased_entry ∷ []) (λ s. (refl, (refl, λ k _. refl))) leased-Holds tt refl refl refl

abbrev event_with : Bytes → ℤ → Event
event_with key lease = record {
  delete = false;
  create = true;
  kv = some record {
    key = key;
    create_revision = pos 3;
    mod_revision = pos 3;
    value = codes "v";
    lease = lease;
  };
  prev_kv = none;
}

abbrev first_page : List Event
first_page = event_with (codes "/a") (pos 5) ∷ event_with (codes "/b") (pos 0) ∷ []

abbrev second_page : List Event
second_page = event_with (codes "/cc") (pos 9) ∷ []

-- The page that starts from a key: the length of the key says which one.
abbrev page_from : Bytes → List Event
page_from [] = first_page
page_from (a ∷ []) = []
page_from (a ∷ b ∷ []) = second_page
page_from (a ∷ b ∷ c ∷ key) = []

abbrev paged_log : Log (Unit {0})
paged_log = record {
  start = pure none;
  current_revision = pure (pos 9, none);
  list = λ prefix start_key limit revision b. pure (pos 9, page_from start_key, none);
  after = λ prefix revision limit. pure (pos 9, [], none);
  count = λ prefix. pure (pos 9, pos 3, none);
  append = λ event. pure (pos 10, none);
  db_size = pure (pos 0, none);
}

old_leased_lem_example :
    Returns
      (λ a. a ≡ event_with (codes "/a") (pos 5) ∷ event_with (codes "/cc") (pos 9) ∷ [])
      (old_leased paged_log 2 tt)
old_leased_lem_example =
    old_leased_lem paged_log 2 (pos 9) (event_with (codes "/a") (pos 5))
      (event_with (codes "/b") (pos 0) ∷ []) (second_page ∷ []) tt (refl, refl, refl)
      ((_, refl), ((_, refl), tt))
      ((λ s. (refl, refl)), ((_, refl), tt), (λ e. absurd (cc)), λ s. refl) (ground arith)
