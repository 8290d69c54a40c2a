-- ===== src/Nats/Driver/Contract.antt =====
-- What the driver relies on, and how a state is seen: the value that each key holds.
use thesis_code.Prelude.{
  ◌<◌, Bytes, bytes_eq, ℤ, pos, ltb_ℤ, Bool, false, Option, none, some, ok, Ends, ◌≡◌,
  if◌then◌else◌,
}
use thesis_code.Server.Types.{KeyValue}
use thesis_code.Server.Classify.{is_empty}
use thesis_code.Nats.Bucket.{Entry}
use thesis_code.Nats.Bucket.Contract.{View, Keeps, Laws}
use thesis_code.Nats.Driver.{JsValue, Driver, int64_of, with_mod_revision}

-- The JSON of a value whose key is text is not empty, and gives the value back.
abbrev pub JsonLaws : {S : Type 0} → Driver S → (Bytes → Type 0) → Type 0
JsonLaws d IsKey =
    (x : JsValue) (kv : KeyValue)
    → x.kv ≡ some kv
    → IsKey kv.key
    → (json : Bytes) × (d.marshal x ≡ ok json)
      × (is_empty json ≡ false)
      × (d.unmarshal json ≡ (x, none))

-- The bucket keeps its contract, and the clock and the mutexes return and leave it alone.
pub record DriverLaws {S : Type 0} (d : Driver S) (v : View S) (IsKey : Bytes → Type 0)
    : Type 0 where
  pub bucket : Laws v IsKey d.kv
  pub json : JsonLaws d IsKey
  pub now_lem : (s : S) → Ends (λ a t. Keeps v IsKey s t) (d.now s)
  pub lock_lem : (folder : Bytes) (s : S) → Ends (λ a t. Keeps v IsKey s t) (d.lock folder s)
  pub unlock_lem : (folder : Bytes) (s : S) → Ends (λ a t. Keeps v IsKey s t) (d.unlock folder s)

abbrev pub stamped_kv : Option KeyValue → ℤ → Option KeyValue
stamped_kv none rev = none
stamped_kv (some kv) rev = some (with_mod_revision kv rev)

-- A value with the revision of its entry.
abbrev pub stamped : JsValue → ℤ → JsValue
stamped x rev = record x { kv = stamped_kv x.kv rev }

module _ {S : Type 0} (d : Driver S) (v : View S) (IsKey : Bytes → Type 0) where
  abbrev pub held_of : Option Entry → Option JsValue
  held_of none = none
  held_of (some e) = some (stamped (d.unmarshal e.value).0 (int64_of e.revision))

  -- The value that a key holds; it may be the event of a deletion.
  abbrev pub held : S → Bytes → Option JsValue
  held s key = held_of (v.newest s key)

  -- The entry is the JSON of a value of the key.
  abbrev pub IsValue : Bytes → Entry → Type 0
  IsValue key e =
      (x : JsValue) × (kv : KeyValue) × (is_empty e.value ≡ false)
      × (d.unmarshal e.value ≡ (x, none))
      × (x.kv ≡ some kv)
      × (kv.key ≡ key)

  -- The invariant: every entry is the JSON of a value of its key.
  abbrev pub Holds : S → Type 0
  Holds s = (key : Bytes) → IsKey key → (e : Entry) → v.newest s key ≡ some e → IsValue key e

  -- Nothing changes.
  abbrev pub Stays : S → S → Type 0
  Stays s t = (v.seq t ≡ v.seq s) × ((k : Bytes) → IsKey k → held t k ≡ held s k) × Holds t

  -- The last sequence number grows, one key holds `x` or nothing, the others hold what they did.
  abbrev pub Becomes : Bytes → Option JsValue → S → S → Type 0
  Becomes key x s t =
      (v.seq s < v.seq t)
      × ((k : Bytes) → IsKey k → held t k ≡ (if bytes_eq key k then x else held s k))
      × Holds t

abbrev pub kv_lease : Option KeyValue → Bool
kv_lease none = false
kv_lease (some kv) = ltb_ℤ (pos 0) kv.lease

abbrev pub has_lease : Option JsValue → Bool
has_lease none = false
has_lease (some x) = kv_lease x.kv
