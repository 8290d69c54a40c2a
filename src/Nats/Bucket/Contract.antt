-- ===== src/Nats/Bucket/Contract.antt =====
-- What is relied on of a bucket, while no other client writes: the newest value of a key can be
-- read, a write is done whole and gets a larger sequence number, or it fails and changes nothing.
-- A state is seen as its last sequence number and the newest entry of each key that is no deletion.
use thesis_code.Prelude.{
  ℕ, ◌<◌, Bytes, bytes_eq, Option, none, some, Result, ok, failed, Ends, ◌≡◌, ◌⊎◌, if◌then◌else◌,
}
use thesis_code.Server.Types.{Error}
use thesis_code.Nats.Bucket.{Entry, Status, Bucket}

pub record View (S : Type 0) : Type 0 where
  pub seq : S → ℕ
  pub newest : S → Bytes → Option Entry

abbrev pub answer : Option Entry → Result Error Entry
answer none = failed Error.key_not_found
answer (some e) = ok e

module _ {S : Type 0} (v : View S) (IsKey : Bytes → Type 0) where
  abbrev pub Keeps : S → S → Type 0
  Keeps s t = (v.seq t ≡ v.seq s) × ((k : Bytes) → IsKey k → v.newest t k ≡ v.newest s k)

  -- One key gets the entry `e` or none, and the others keep theirs.
  abbrev pub Sets : Bytes → Option Entry → S → S → Type 0
  Sets key e s t =
      (v.seq s < v.seq t)
      × ((k : Bytes) → IsKey k → v.newest t k ≡ (if bytes_eq key k then e else v.newest s k))

  abbrev pub Stores : Bytes → Bytes → S → S → Type 0
  Stores key value s t =
      (e : Entry) × (e.key ≡ key)
      × (e.value ≡ value)
      × (e.revision ≡ v.seq t)
      × Sets key (some e) s t

  abbrev pub Written : Bytes → Bytes → S → Result Error ℕ → S → Type 0
  Written key value s a t =
      ((a ≡ ok (v.seq t)) × Stores key value s t) ⊎ ((e : Error) × (a ≡ failed e) × Keeps s t)

  pub record Laws (kv : Bucket S) : Type 0 where
    pub get_lem :
        (key : Bytes) (s : S)
        → IsKey key
        → Ends (λ a t. (a ≡ answer (v.newest s key)) × Keeps s t) (kv.get key s)
    pub put_lem :
        (key value : Bytes) (s : S) → IsKey key → Ends (Written key value s) (kv.put key value s)
    pub create_lem :
        (key value : Bytes) (s : S)
        → IsKey key
        → v.newest s key ≡ none
        → Ends (Written key value s) (kv.create key value s)
    pub delete_lem :
        (key : Bytes) (s : S)
        → IsKey key
        → Ends
            (λ a t. ((a ≡ none) × Sets key none s t) ⊎ ((e : Error) × (a ≡ some e) × Keeps s t))
            (kv.delete key s)
    pub status_lem :
        (s : S)
        → Ends
            (λ a t. (st : Status) × (a ≡ ok st) × (st.last_seq ≡ v.seq s) × Keeps s t)
            (kv.status s)
