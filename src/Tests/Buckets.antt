-- ===== src/Tests/Buckets.antt =====
-- The theorems on the NATS driver at concrete inputs.
use thesis_code.Prelude.{
  ℕ, Bytes, codes, bytes_eq, bytes_eq-eq, has_prefix, split_on, ℤ, pos, true, false, Bool-cases,
  inl, inr, List, [], ◌∷◌, ◌++◌, map, Option, none, some, ok, Outcome, Ends, ◌≡◌, refl, ap, pure,
  has_suffix, arith,
}
use mathlib.Core.List.{Perm}
use thesis_code.Server.Types.{KeyValue}
use thesis_code.Nats.Codec.{trim_slash, encode, decode, encode_range, plain_codec, etcd_key_codec}
use thesis_code.Nats.Codec.Roundtrip.{decode-encode}
use thesis_code.Nats.Codec.Ranges.{stem, range_covers}
use thesis_code.Nats.Bucket.{Operation, Entry, encoded_kv}
use thesis_code.Nats.Bucket.Contract.{Laws}
use thesis_code.Nats.Bucket.Refinement.{
  decoded_view, IsEtcdKey, etcd_key_codec-KeyLaws, encoded_kv-refines,
}
use thesis_code.Nats.Driver.{JsValue, Driver, get_kv, create, update, delete}
use thesis_code.Nats.Driver.Contract.{DriverLaws, held, Holds, Stays}
use thesis_code.Nats.Driver.Reads.{get_kv_lem}
use thesis_code.Nats.Driver.Creates.{CreateEnds, create_kv_lem}
use thesis_code.Nats.Driver.Updates.{UpdateEnds, update_kv_lem}
use thesis_code.Nats.Driver.Deletes.{DeleteEnds, delete_kv_lem}
use thesis_code.Nats.Listing.{list, until_nil, effective_start}
use thesis_code.Nats.Listing.Order.{IsSorted}
use thesis_code.Nats.Listing.Current.{WatchLaws, remaining, kv_of, list_kv_lem}
use thesis_code.Nats.Listing.Starting.{HistoryLaws, list_start_empty}
use thesis_code.Nats.Locks.{
  Locks, called, inside, looked, located, waiting, working, lookup, set_place, set_owner, start,
  Step, Reach, begin, advance,
}
use thesis_code.Nats.Locks.Exclusion.{folder_exclusion}
use thesis_code.Tests.MemoryBucket.{
  newest_list, watch_key, Stream, AnyKey, stream_view, memory, memory-Laws, toy58, toy58-IsBase58,
  toy_unmarshal, toy_driver, toy_driver-Laws, newest,
}

decode-encode_example :
    (text : Bytes) × (encode toy58 (codes "/registry/a") ≡ ok text)
    × (decode toy58 text ≡ ok (codes "/registry/a"))
unfolding trim_slash split_on bytes_eq
decode-encode_example = decode-encode toy58-IsBase58 (codes "/registry/a") (refl, (refl, tt))

range_covers_example :
    (encode_range toy58 (codes "/pods/") ≡ ok (stem toy58-IsBase58 (codes "pods") ++ codes ">"))
    × (text : Bytes) × (encode toy58 (codes "/pods/a") ≡ ok text)
    × (has_prefix text (stem toy58-IsBase58 (codes "pods"))
        ≡ has_prefix (codes "/pods/a") (codes "/pods/"))
unfolding split_on bytes_eq
range_covers_example =
    range_covers toy58-IsBase58 (codes "pods") (codes "pods/a") (refl, tt) (refl, (refl, tt))

encoded_kv-refines_example :
    Laws
      (decoded_view (etcd_key_codec toy58) plain_codec stream_view)
      IsEtcdKey
      (encoded_kv (etcd_key_codec toy58) plain_codec memory)
unfolding plain_codec
encoded_kv-refines_example =
    encoded_kv-refines (etcd_key_codec toy58) plain_codec stream_view memory
      (etcd_key_codec-KeyLaws toy58-IsBase58) (λ value. (value, refl, refl)) memory-Laws

abbrev pub pod : Bytes
pod = codes "/registry/pods/a"

abbrev pub pod_json : Bytes
pod_json = 1 ∷ 0 ∷ 0 ∷ 0 ∷ 0 ∷ 0 ∷ 0 ∷ 0 ∷ 0 ∷ 0 ∷ 16 ∷ codes "/registry/pods/a" ++ codes "v1"

abbrev pub pod_entry : Entry
pod_entry = record {
  key = pod;
  value = pod_json;
  revision = 1;
  created = pos 0;
  operation = Operation.key_value_put;
}

-- The stream after the pod was created.
abbrev pub one_pod : Stream
one_pod = pod_entry ∷ []

abbrev pub pod_at : ℤ → KeyValue
pod_at rev = record {
  key = pod;
  create_revision = pos 0;
  mod_revision = rev;
  value = codes "v1";
  lease = pos 0;
}

abbrev pub pod_created : JsValue
pod_created = record {
  kv = some (pod_at (pos 0));
  prev_revision = pos 0;
  create = true;
  delete = false;
}

pod_json_lem : toy_unmarshal pod_json ≡ (pod_created, none)
pod_json_lem = refl

some-inj : (e f : Entry) → some e ≡ some f → e ≡ f
some-inj e f h = cc

empty-Holds : Holds toy_driver stream_view AnyKey []
empty-Holds key _ e h = absurd (cc)

pub one_pod-Holds : Holds toy_driver stream_view AnyKey one_pod
one_pod-Holds key _ e h = elim (Bool-cases (bytes_eq pod key)) [
  | inl y ↦
      let same = some-inj pod_entry e (rw y at h) in
      rw (← same) (pod_created, pod_at (pos 0), refl, refl, refl, bytes_eq-eq pod key y)
  | inr y ↦ let none_there = rw y at h in absurd (cc)
]

pod_create : toy_driver.kv.put pod pod_json [] ≡ Outcome.returned (ok 1, one_pod)
pod_create = refl

get_kv_lem_example :
    Ends
      (λ a t.
        (a ≡ (pos 1, some (pod_at (pos 1)), none)) × Stays toy_driver stream_view AnyKey one_pod t)
      (get_kv toy_driver pod [] (pos 0) (pos 0) one_pod)
unfolding bytes_eq
get_kv_lem_example =
    get_kv_lem toy_driver stream_view AnyKey toy_driver-Laws pod [] (pos 0) one_pod tt one_pod-Holds
      refl

create_kv_lem_example :
    Ends
      (CreateEnds toy_driver stream_view AnyKey toy_driver-Laws pod (codes "v1") (pos 0) none [])
      (create toy_driver pod (codes "v1") (pos 0) [])
create_kv_lem_example =
    create_kv_lem toy_driver stream_view AnyKey toy_driver-Laws pod (codes "v1") (pos 0) [] tt
      empty-Holds refl

update_kv_lem_example :
    Ends
      (UpdateEnds toy_driver stream_view AnyKey toy_driver-Laws pod
        (codes "v2")
        (pos 1)
        (pos 0)
        (some (pod_at (pos 1)))
        one_pod)
      (update toy_driver pod (codes "v2") (pos 1) (pos 0) one_pod)
unfolding bytes_eq
update_kv_lem_example =
    update_kv_lem toy_driver stream_view AnyKey toy_driver-Laws pod (codes "v2") (pos 1) (pos 0)
      one_pod tt one_pod-Holds refl

delete_kv_lem_example :
    Ends
      (DeleteEnds toy_driver stream_view AnyKey toy_driver-Laws pod
        (pos 1)
        (held toy_driver stream_view AnyKey one_pod pod)
        one_pod)
      (delete toy_driver pod (pos 1) one_pod)
unfolding bytes_eq
delete_kv_lem_example =
    delete_kv_lem toy_driver stream_view AnyKey toy_driver-Laws pod (pos 1) one_pod tt one_pod-Holds
      refl

abbrev under : Stream → Bytes → List Entry
under s prefix = newest_list (newest s prefix)

watches_lem : WatchLaws toy_driver stream_view AnyKey toy_driver-Laws under
unfolding until_nil
watches_lem prefix meta_only s =
    (_, refl, until_nil-newest (newest s prefix), (λ u. (refl, λ k _. refl)), (refl, λ k _. refl))
  where
    until_nil-newest : (o : Option Entry) → until_nil ((watch_key o).updates) ≡ newest_list o
    until_nil-newest none = refl
    until_nil-newest (some e) = refl

list_kv_lem_example :
    Ends
      (λ a t.
        (listed : List Entry) × IsSorted listed
        × Perm listed (pod_entry ∷ [])
        × (a ≡ (
          pos 1,
          map (kv_of toy_driver stream_view AnyKey toy_driver-Laws) (remaining (pos 5) 0 listed),
          none,
        ))
        × Stays toy_driver stream_view AnyKey one_pod t)
      (list toy_driver (λ hs. hs) pod [] (pos 5) (pos 0) one_pod)
unfolding bytes_eq effective_start
list_kv_lem_example =
    list_kv_lem toy_driver stream_view AnyKey toy_driver-Laws under (λ hs. hs) pod [] (pos 5)
      one_pod watches_lem one_pod-Holds refl (λ t k. ap newest_list (k.1 pod tt))
      (((pod_created, pod_at (pos 0), refl, refl, refl, refl), refl), tt)

-- A driver whose keys all have the history of the pod.
abbrev pod_history : Driver Stream
pod_history = record toy_driver {
  kv = record memory { history = λ key. pure (ok (pod_entry ∷ [])) };
}

pod_history-Laws : DriverLaws pod_history stream_view AnyKey
pod_history-Laws = record {
  bucket = record {
    get_lem = memory-Laws.get_lem;
    put_lem = memory-Laws.put_lem;
    create_lem = memory-Laws.create_lem;
    delete_lem = memory-Laws.delete_lem;
    status_lem = memory-Laws.status_lem;
  };
  json = toy_driver-Laws.json;
  now_lem = toy_driver-Laws.now_lem;
  lock_lem = toy_driver-Laws.lock_lem;
  unlock_lem = toy_driver-Laws.unlock_lem;
}

histories_lem : HistoryLaws pod_history stream_view AnyKey pod_history-Laws
histories_lem key s = inl (_, refl, (omega arith, tt))

list_start_empty_example :
    Ends
      (λ a t. a.1 ≡ [])
      (list pod_history (λ hs. hs) (codes "/registry/pods/") pod (pos 5) (pos 0) one_pod)
unfolding effective_start has_suffix has_prefix bytes_eq
list_start_empty_example =
    list_start_empty pod_history stream_view AnyKey pod_history-Laws under (λ hs. hs)
      (codes "/registry/pods/") pod (pos 5) one_pod watches_lem histories_lem (λ hs h. h) refl

abbrev pods : Bytes
pods = codes "/registry/pods"

-- Goroutine 7 takes the lock of the folder, step by step.
abbrev seven_calls : Locks
seven_calls = record start { place = set_place 7 (called pods) start.place }

abbrev seven_inside : Locks
seven_inside = record seven_calls {
  dir_mu = some 7;
  place = set_place 7 (inside pods) seven_calls.place;
}

abbrev seven_looked : Locks
seven_looked = record seven_inside { place = set_place 7 (looked pods none) seven_inside.place }

abbrev seven_located : Locks
seven_located = record seven_looked {
  sub_mus = (pods, 0) ∷ [];
  next_mutex = 1;
  place = set_place 7 (located pods 0) seven_looked.place;
}

abbrev seven_waits : Locks
seven_waits = record seven_located {
  dir_mu = none;
  place = set_place 7 (waiting pods 0) seven_located.place;
}

abbrev seven_works : Locks
seven_works = record seven_waits {
  owner = set_owner 0 (some 7) start.owner;
  place = set_place 7 (working pods 0) seven_waits.place;
}

Reach-seven : Reach seven_works
unfolding lookup
Reach-seven =
    let called_it : Reach seven_calls = advance 7 begin (Step.call pods refl) in
    let inside_it : Reach seven_inside = advance 7 called_it (Step.lock_dir pods refl refl) in
    let looked_it : Reach seven_looked = advance 7 inside_it (Step.look pods refl) in
    let located_it : Reach seven_located = advance 7 looked_it (Step.make_new pods refl) in
    let waits : Reach seven_waits = advance 7 located_it (Step.unlock_dir pods 0 refl) in
    advance 7 waits (Step.lock pods 0 refl refl)

folder_exclusion_example : ◌≡◌ {A = ℕ} 7 7 × ◌≡◌ {A = ℕ} 0 0
folder_exclusion_example = folder_exclusion seven_works 7 7 pods 0 0 Reach-seven refl refl
