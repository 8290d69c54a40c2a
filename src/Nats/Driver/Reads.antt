-- ===== src/Nats/Driver/Reads.antt =====
-- Reading one key through the driver, over any bucket that keeps the contract.
use thesis_code.Prelude.{
  Bytes, ℤ, pos, Bool, false, Bool-cases, not, ◌&&◌, inl, inr, Option, none, some, Outcome, Ends,
  Ends-bind, ◌≡◌, refl, sym, ap, ◌∙◌, if◌then◌else◌,
}
use thesis_code.Server.Types.{Error, KeyValue, Err}
use thesis_code.Nats.Bucket.{Entry}
use thesis_code.Nats.Bucket.Contract.{View, answer, Keeps}
use thesis_code.Nats.Driver.{
  JsValue, Driver, Found, int64_of, decode, compact_revision, current_revision, is_key_expired,
  read_value, read_entry, get, get_answer, get_kv,
}
use thesis_code.Nats.Driver.Contract.{
  DriverLaws, stamped, held_of, held, IsValue, Holds, Stays, has_lease,
}

-- The revision of a value.
abbrev pub kv_revision : Option KeyValue → ℤ
kv_revision none = pos 0
kv_revision (some kv) = kv.mod_revision

-- What `get` answers for the value that a key holds.
abbrev pub seen : Bool → Option JsValue → Found
seen include_deletes none = (pos 0, none, some Error.key_not_found)
seen include_deletes (some x) =
    if x.delete && not include_deletes
    then (pos 0, none, some Error.key_not_found)
    else (kv_revision x.kv, some x, none)

module _ {S : Type 0} (d : Driver S) (v : View S) (IsKey : Bytes → Type 0)
    (laws : DriverLaws d v IsKey) where
  pub Keeps-trans : (s t u : S) → Keeps v IsKey s t → Keeps v IsKey t u → Keeps v IsKey s u
  Keeps-trans s t u h k = (k.0 ∙ h.0, λ key g. k.1 key g ∙ h.1 key g)

  pub Keeps-refl : (s : S) → Keeps v IsKey s s
  Keeps-refl s = (refl, λ key g. refl)

  pub Keeps-Holds : (s t : S) → Keeps v IsKey s t → Holds d v IsKey s → Holds d v IsKey t
  Keeps-Holds s t k h key g e n = h key g e (sym (k.1 key g) ∙ n)

  pub Keeps-Stays : (s t : S) → Keeps v IsKey s t → Holds d v IsKey s → Stays d v IsKey s t
  Keeps-Stays s t k h = (k.0, λ key g. ap (held_of d v IsKey) (k.1 key g), Keeps-Holds s t k h)

  pub decode_lem :
      (key : Bytes) (e : Entry) (s : S)
      → IsValue d v IsKey key e
      → decode d e s
        ≡ Outcome.returned ((stamped (d.unmarshal e.value).0 (int64_of e.revision), none), s)
  unfolding decode
  decode_lem key e s (x, kv, full, json, has, _) = rw (full, json, has) refl

  -- A value without a lease is not expired.
  pub is_key_expired_lem :
      (created : ℤ) (x : JsValue) (kv : KeyValue) (s : S)
      → x.kv ≡ some kv
      → has_lease (some x) ≡ false
      → Ends (λ a t. (a ≡ false) × Keeps v IsKey s t) (is_key_expired d created x s)
  unfolding is_key_expired
  is_key_expired_lem created x kv s has free =
      Ends-bind (λ a t. Keeps v IsKey s t) _ (d.now s) _ (laws.now_lem s)
        λ a t k. rw has (rw (rw has at free) (refl, k))

  pub compact_revision_lem :
      (s : S)
      → Ends (λ a t. (rev : ℤ) × (a ≡ (rev, none)) × Keeps v IsKey s t) (compact_revision d s)
  unfolding compact_revision
  compact_revision_lem s =
      Ends-bind _ _ (d.kv.status s) _ (laws.bucket.status_lem s)
        λ a t p. (int64_of p.0.first_seq, rw p.1 refl, p.3)

  pub current_revision_lem :
      (s : S)
      → Ends (λ a t. (a ≡ (int64_of (v.seq s), none)) × Keeps v IsKey s t) (current_revision d s)
  unfolding current_revision
  current_revision_lem s =
      Ends-bind _ _ (d.kv.status s) _ (laws.bucket.status_lem s) λ a t p. (rw (p.1, p.2) refl, p.3)

  read_value_lem :
      (b : Bool) (e : Entry) (x : JsValue) (kv : KeyValue) (s t : S)
      → x.kv ≡ some kv
      → has_lease (some x) ≡ false
      → Keeps v IsKey s t
      → Ends (λ a u. (a ≡ seen b (some x)) × Keeps v IsKey s u) (read_value d b e (x, none) t)
  read_value_lem b e x kv s t has free k = elim (Bool-cases (x.delete && not b)) [
    | inl h ↦ rw h (refl, k)
    | inr h ↦ rw h (
        Ends-bind _ _ (is_key_expired d e.created x t) _
          (is_key_expired_lem e.created x kv t has free)
          λ a u p. rw (p.0, has) (refl, Keeps-trans s t u k p.1))
  ]

  read_entry_lem :
      (b : Bool) (key : Bytes) (o : Option Entry) (s t : S)
      → ((e : Entry) → o ≡ some e → IsValue d v IsKey key e)
      → has_lease (held_of d v IsKey o) ≡ false
      → Keeps v IsKey s t
      → Ends
          (λ a u. (a ≡ seen b (held_of d v IsKey o)) × Keeps v IsKey s u)
          (read_entry d b (answer o) t)
  read_entry_lem b key none s t valid free k = (refl, k)
  read_entry_lem b key (some e) s t valid free k =
      let (x, kv, full, json, has, same) = valid e refl in
      let x' = stamped (d.unmarshal e.value).0 (int64_of e.revision) in
      rw (decode_lem key e t (valid e refl)) (
        read_value_lem b e x' (record kv { mod_revision = int64_of e.revision }) s t
          (rw (json, has) refl) free k)

  -- What `get` answers for the newest value of a key that has no lease.
  pub get_lem :
      (key : Bytes) (b : Bool) (s : S)
      → IsKey key
      → Holds d v IsKey s
      → has_lease (held d v IsKey s key) ≡ false
      → Ends
          (λ a t. (a ≡ seen b (held d v IsKey s key)) × Keeps v IsKey s t)
          (get d key (pos 0) b s)
  unfolding get
  get_lem key b s g h free =
      Ends-bind _ _ (compact_revision d s) _ (compact_revision_lem s) λ a t p. rw p.1 (
        Ends-bind _ _ (d.kv.get key t) _ (laws.bucket.get_lem key t g) λ c u q.
          rw (q.0, p.2.1 key g)
            (read_entry_lem b key (v.newest s key) s u (h key g) free (Keeps-trans s t u p.2 q.1)))

  abbrev pub live_of : Option JsValue → Option KeyValue
  live_of none = none
  live_of (some x) = if x.delete then none else x.kv

  abbrev pub got : ℤ → Option KeyValue → ℤ × Option KeyValue × Err
  got rev none = (rev, none, none)
  got rev (some kv) = (kv.mod_revision, some kv, none)

  get_answer_lem :
      (rev : ℤ) (key : Bytes) (o : Option Entry)
      → ((e : Entry) → o ≡ some e → IsValue d v IsKey key e)
      → get_answer d rev (seen false (held_of d v IsKey o))
        ≡ got rev (live_of (held_of d v IsKey o))
  get_answer_lem rev key none valid = refl
  get_answer_lem rev key (some e) valid =
      let (x, kv, full, json, has, same) = valid e refl in
      elim (Bool-cases x.delete) [ inl y ↦ rw (json, has, y) refl | inr y ↦ rw (json, has, y) refl ]

  -- Reading a key without a lease at revision 0 returns its live value with the revision of that
  -- value, or no value with the last sequence number of the bucket, if the key has none or its
  -- newest event is a deletion. There is no error, and nothing changes.
  pub get_kv_lem :
      (key range_end : Bytes) (limit : ℤ) (s : S)
      → IsKey key
      → Holds d v IsKey s
      → has_lease (held d v IsKey s key) ≡ false
      → Ends
          (λ a t.
            (a ≡ got (int64_of (v.seq s)) (live_of (held d v IsKey s key))) × Stays d v IsKey s t)
          (get_kv d key range_end limit (pos 0) s)
  unfolding get_kv
  get_kv_lem key range_end limit s g h free =
      Ends-bind _ _ (current_revision d s) _ (current_revision_lem s) λ a t p. rw p.0 (
        Ends-bind _ _ (get d key (pos 0) false t) _
          (get_lem key false t g (Keeps-Holds s t p.1 h) (rw (p.1.1 key g) free))
          λ c u q. (
            rw (q.0, p.1.1 key g)
                (get_answer_lem (int64_of (v.seq s)) key (v.newest s key) (h key g)),
            Keeps-Stays s u (Keeps-trans s t u p.1 q.1) h,
          ))
