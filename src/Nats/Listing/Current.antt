-- ===== src/Nats/Listing/Current.antt =====
-- Listing a prefix at the current revision, over a bucket that answers a watch with the newest
-- entries under the prefix.
use thesis_code.Prelude.{
  ℕ, zero, suc, ◌-◌, Bytes, ℤ, pos, negsuc, pos_part, ◌==ℤ◌, Bool, true, false, Bool-cases, inl,
  inr, List, [], ◌∷◌, map, take, All, Option, none, some, ok, Ends, Ends-bind, ◌≡◌, refl, arith,
  if◌then◌else◌,
}
use mathlib.Core.List.{Perm}
use thesis_code.Server.Types.{KeyValue}
use thesis_code.Nats.Bucket.{Entry, Watcher}
use thesis_code.Nats.Bucket.Contract.{View, Keeps}
use thesis_code.Nats.Driver.{Driver, int64_of, is_key_expired, current_revision}
use thesis_code.Nats.Driver.Contract.{
  DriverLaws, stamped, held_of, IsValue, Holds, Stays, has_lease,
}
use thesis_code.Nats.Driver.Reads.{
  Keeps-trans, Keeps-refl, Keeps-Stays, decode_lem, is_key_expired_lem, current_revision_lem,
}
use thesis_code.Nats.Listing.{
  is_open, until_nil, sort, key_less, get_key_values, list_values, list, effective_start,
}
use thesis_code.Nats.Listing.Order.{IsSorted, sort-IsSorted, sort-perm, sort-All}

-- What is left of a list under a limit, of which `count` were taken; 0 is no limit.
abbrev pub remaining : ℤ → ℕ → List Entry → List Entry
remaining limit count entries =
    if limit ==ℤ pos 0 then entries else take (pos_part limit - count) entries

remaining-cons :
    (limit : ℤ) (count : ℕ) (e : Entry) (entries : List Entry)
    → is_open count limit ≡ true
    → remaining limit count (e ∷ entries) ≡ e ∷ remaining limit (suc count) entries
remaining-cons (pos zero) count e entries h = refl
remaining-cons (pos (suc n)) count e entries h =
    let more : suc n - count ≡ suc (suc n - suc count) = ground arith in rw more (ground arith)
remaining-cons (negsuc n) count e entries h = ground arith

remaining_closed :
    (limit : ℤ) (count : ℕ) (entries : List Entry)
    → is_open count limit ≡ false
    → remaining limit count entries ≡ []
remaining_closed (pos zero) count entries h = ground arith
remaining_closed (pos (suc n)) count entries h =
    let none_left : suc n - count ≡ 0 = ground arith in rw none_left (ground arith)
remaining_closed (negsuc n) count entries h =
    let none_left : 0 - count ≡ 0 = omega arith in rw none_left (ground arith)

module _ {S : Type 0} (d : Driver S) (v : View S) (IsKey : Bytes → Type 0)
    (laws : DriverLaws d v IsKey) where
  -- The bucket answers a watch with the entries `under` a prefix before the first nil, and a watch
  -- can be ended.
  abbrev pub WatchLaws : (S → Bytes → List Entry) → Type 0
  WatchLaws under =
      (prefix : Bytes) (meta_only : Bool) (s : S)
      → Ends
          (λ a t.
            (w : Watcher S) × (a ≡ ok w)
            × (until_nil w.updates ≡ under s prefix)
            × ((u : S) → Ends (λ _ x. Keeps v IsKey u x) (w.stop u))
            × Keeps v IsKey s t)
          (d.kv.watch prefix meta_only s)

  -- An entry with a value of its key that has no lease.
  abbrev pub IsListed : Entry → Type 0
  IsListed e = IsValue d v IsKey e.key e × (has_lease (held_of d v IsKey (some e)) ≡ false)

  abbrev pub kv_of : Entry → Option KeyValue
  kv_of e = (stamped (d.unmarshal e.value).0 (int64_of e.revision)).kv

  list_values_lem :
      (limit : ℤ) (count : ℕ) (entries : List Entry) (s : S)
      → All IsListed entries
      → Ends
          (λ a t. (a ≡ map kv_of (remaining limit count entries)) × Keeps v IsKey s t)
          (list_values d limit count entries s)
  unfolding list_values
  list_values_lem limit count [] s h = elim (Bool-cases (limit ==ℤ pos 0)) [
    | inl y ↦ rw y (refl, Keeps-refl d v IsKey laws s)
    | inr y ↦ rw y (take_empty (pos_part limit - count), Keeps-refl d v IsKey laws s)
  ]
    where
      take_empty : (n : ℕ) → [] ≡ map kv_of (take n [])
      take_empty zero = refl
      take_empty (suc n) = refl
  list_values_lem limit count (e ∷ entries) s ((valid, free), h) =
      elim (Bool-cases (is_open count limit)) [
        | inl y ↦
            let x = stamped (d.unmarshal e.value).0 (int64_of e.revision) in
            let (_, kv, full, json, has, same) = valid in
            rw (y, decode_lem d v IsKey laws e.key e s valid)
              (Ends-bind (λ a t. (a ≡ false) × Keeps v IsKey s t) _ (is_key_expired d e.created x s)
                _
                (is_key_expired_lem d v IsKey laws e.created x
                  (record kv { mod_revision = int64_of e.revision }) s (rw (json, has) refl) free)
                λ expired t p. rw p.0 (
                  Ends-bind
                    (λ a u.
                      (a ≡ map kv_of (remaining limit (suc count) entries)) × Keeps v IsKey t u)
                    _ (list_values d limit (suc count) entries t) _
                    (list_values_lem limit (suc count) entries t h)
                    λ kvs u q. (
                      rw (q.0, remaining-cons limit count e entries y) refl,
                      Keeps-trans d v IsKey laws s t u p.1 q.1,
                    )))
        | inr y ↦
            rw (y, remaining_closed limit count (e ∷ entries) y) (refl, Keeps-refl d v IsKey laws s)
      ]

  get_key_values_lem :
      (under : S → Bytes → List Entry) (prefix : Bytes) (s : S)
      → WatchLaws under
      → Ends
          (λ a t. (a ≡ ok (sort key_less (under s prefix))) × Keeps v IsKey s t)
          (get_key_values d prefix true s)
  unfolding get_key_values
  get_key_values_lem under prefix s watches =
      Ends-bind _ _ (d.kv.watch prefix false s) _ (watches prefix false s) λ a t p.
        rw (p.1, p.2)
          (Ends-bind (λ _ u. Keeps v IsKey t u) _ (p.0.stop t) _ (p.3 t)
            λ _ u k. (refl, Keeps-trans d v IsKey laws s t u p.4 k))

  -- Listing a prefix at revision 0 without a start key, or with one that begins the prefix: the
  -- result has the last sequence number of the bucket and the values under the prefix in the order
  -- of their keys, all of them for limit 0, else the first `limit`, and nothing changes. This is if
  -- the bucket answers a watch and every entry under the prefix holds a value without a lease.
  pub list_kv_lem :
      (under : S → Bytes → List Entry) (iterate : List (List Entry) → List (List Entry))
      (prefix start_key : Bytes) (limit : ℤ) (s : S)
      → WatchLaws under
      → Holds d v IsKey s
      → effective_start prefix start_key ≡ []
      → ((t : S) → Keeps v IsKey s t → under t prefix ≡ under s prefix)
      → All IsListed (under s prefix)
      → Ends
          (λ a t.
            (listed : List Entry) × IsSorted listed
            × Perm listed (under s prefix)
            × (a ≡ (int64_of (v.seq s), map kv_of (remaining limit 0 listed), none))
            × Stays d v IsKey s t)
          (list d iterate prefix start_key limit (pos 0) s)
  unfolding list
  list_kv_lem under iterate prefix start_key limit s watches holds start same listed = rw start (
      Ends-bind _ _ (current_revision d s) _ (current_revision_lem d v IsKey laws s) λ a t p.
        rw p.0 (
          Ends-bind _ _ (get_key_values d prefix true t) _
            (get_key_values_lem under prefix t watches)
            λ b u q.
              rw (q.0, same t p.1)
                (Ends-bind
                  (λ c w.
                    (c ≡ map kv_of (remaining limit 0 (sort key_less (under s prefix))))
                    × Keeps v IsKey u w)
                  _ (list_values d limit 0 (sort key_less (under s prefix)) u) _
                  (list_values_lem limit 0 (sort key_less (under s prefix)) u
                    (sort-All IsListed (under s prefix) listed))
                  λ c w r. (
                    sort key_less (under s prefix),
                    sort-IsSorted (under s prefix),
                    sort-perm (under s prefix),
                    rw r.0 refl,
                    Keeps-Stays d v IsKey laws s w
                        (Keeps-trans d v IsKey laws s u w (Keeps-trans d v IsKey laws s t u p.1 q.1)
                          r.1)
                        holds,
                  ))))
