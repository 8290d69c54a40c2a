-- ===== src/Server/Limited/Replies.antt =====
-- What the response of a transaction shows.
use thesis_code.Prelude.{
  Bytes, codes, ℤ, pos, ◌==ℤ◌, Bool, Bool-cases, Option-cases, inl, inr, List, pure, refl,
  if◌then◌else◌, true, false, [], ◌∷◌, Option, none, some, Returns, AnyReturns, Returns-map,
  map_result, ◌≡◌,
}
use thesis_code.Etcd.{PutRequest, TxnRequest, TxnResponse, ResponseOp}
use thesis_code.Server.Types.{Error, Err, KeyValue, Backend}
use thesis_code.Server.Classify.{is_create, is_update, is_delete, is_compact}
use thesis_code.Server.Limited.{
  Reply, create_reply, update_reply, delete_reply, created, compact_response, fail, create, update,
  delete, txn,
}

-- The one answer of a successful transaction is that of the write, the one answer of a failed
-- transaction is a range response or nothing, and the answer has the revision of the header.
abbrev pub IsConsistentBody : TxnResponse → List ResponseOp → Type 0
IsConsistentBody resp [] = resp.succeeded ≡ false
IsConsistentBody resp (ResponseOp.response_put h ∷ []) = (resp.succeeded ≡ true) × (h ≡ resp.header)
IsConsistentBody resp (ResponseOp.response_delete_range h kvs ∷ []) =
    (resp.succeeded ≡ true) × (h ≡ resp.header)
IsConsistentBody resp (ResponseOp.response_range r ∷ []) =
    (resp.succeeded ≡ false) × (r.header ≡ resp.header)
IsConsistentBody resp (op ∷ op' ∷ ops) = ⊥

-- A reply is either a consistent response or an error, never both and never neither.
abbrev pub IsConsistent : Reply → Type 0
IsConsistent (some resp, none) = IsConsistentBody resp resp.responses
IsConsistent (none, some e) = Unit {0}
IsConsistent (none, none) = ⊥
IsConsistent (some resp, some e) = ⊥

-- The calls of the backend that write return.
pub record Answers {S : Type 0} (backend : Backend S) : Type 0 where
  pub create_lem :
      (key value : Bytes) (lease : ℤ) (s : S) → AnyReturns (backend.create key value lease s)
  pub update_lem :
      (key value : Bytes) (rev lease : ℤ) (s : S)
      → AnyReturns (backend.update key value rev lease s)
  pub delete_lem : (key : Bytes) (rev : ℤ) (s : S) → AnyReturns (backend.delete key rev s)

create_reply-IsConsistent : (r : ℤ × Err) → IsConsistent (create_reply r)
create_reply-IsConsistent (rev, none) = (refl, refl)
create_reply-IsConsistent (rev, some Error.key_exists) = refl
create_reply-IsConsistent (rev, some _) = tt

update_reply-IsConsistent : (r : ℤ × Option KeyValue × Bool × Err) → IsConsistent (update_reply r)
update_reply-IsConsistent (rev, kv, ok, some e) = tt
update_reply-IsConsistent (rev, kv, true, none) = (refl, refl)
update_reply-IsConsistent (rev, kv, false, none) = (refl, refl)

created-IsConsistent : (r : ℤ × Err) → IsConsistent (created r)
created-IsConsistent (rev, err) = update_reply-IsConsistent (rev, none, true, err)

delete_reply-IsConsistent : (r : ℤ × Option KeyValue × Bool × Err) → IsConsistent (delete_reply r)
delete_reply-IsConsistent (rev, kv, ok, some e) = tt
delete_reply-IsConsistent (rev, kv, true, none) = (refl, refl)
delete_reply-IsConsistent (rev, kv, false, none) = (refl, refl)

module _ {S : Type 0} (backend : Backend S) (ok : Answers backend) (s : S) where
  create-IsConsistent : (put : PutRequest) → Returns IsConsistent (create backend put s)
  unfolding create
  create-IsConsistent put = go put.ignore_lease put.ignore_value put.prev_kv
    where
      called :
          Returns IsConsistent
            (map_result create_reply (backend.create put.key put.value put.lease) s)
      called =
          Returns-map IsConsistent create_reply (backend.create put.key put.value put.lease s)
            create_reply-IsConsistent (ok.create_lem put.key put.value put.lease s)

      go :
          (a b c : Bool)
          → Returns IsConsistent (
              (if a
                  then pure (fail (Error.unsupported (codes "ignoreLease")))
                  else if b
                  then pure (fail (Error.unsupported (codes "ignoreValue")))
                  else if c
                  then pure (fail (Error.unsupported (codes "prevKv")))
                  else map_result create_reply (backend.create put.key put.value put.lease))
                s)
      go true b c = tt
      go false true c = tt
      go false false true = tt
      go false false false = called

  update-IsConsistent :
      (rev : ℤ) (key value : Bytes) (lease : ℤ)
      → Returns IsConsistent (update backend rev key value lease s)
  unfolding update
  update-IsConsistent rev key value lease = elim (Bool-cases (rev ==ℤ pos 0)) [
    | inl e ↦ rw e (
        Returns-map IsConsistent created (backend.create key value lease s) created-IsConsistent
          (ok.create_lem key value lease s))
    | inr e ↦ rw e (
        Returns-map IsConsistent update_reply (backend.update key value rev lease s)
          update_reply-IsConsistent (ok.update_lem key value rev lease s))
  ]

  delete-IsConsistent : (key : Bytes) (rev : ℤ) → Returns IsConsistent (delete backend key rev s)
  unfolding delete
  delete-IsConsistent key rev =
      Returns-map IsConsistent delete_reply (backend.delete key rev s) delete_reply-IsConsistent
        (ok.delete_lem key rev s)

  -- If the calls of the backend return, whatever they return, then LimitedServer.Txn returns: an
  -- error and no response, or no error and a response with at most one answer, in which Succeeded is
  -- true exactly when that answer is that of a write, and whose answers carry the revision of the
  -- header.
  pub txn-IsConsistent : (request : TxnRequest) → Returns IsConsistent (txn backend request s)
  unfolding txn compact_response
  txn-IsConsistent request = elim (Option-cases (is_create request)) [
    | inr (put, e) ↦ rw (e, txn) (create-IsConsistent put)
    | inl e ↦
        rw (e, txn)
          (elim (Option-cases (is_delete request)) [
            | inr ((rev, key), e') ↦ rw (e', txn) (delete-IsConsistent key rev)
            | inl e' ↦
                rw (e', txn)
                  (elim (Option-cases (is_update request)) [
                    | inr ((rev, key, value, lease), e'') ↦
                        rw (e'', txn) (update-IsConsistent rev key value lease)
                    | inl e'' ↦
                        rw (e'', txn)
                          (elim (Bool-cases (is_compact request)) [
                            | inl c ↦ rw c (refl, refl)
                            | inr c ↦ rw c tt
                          ])
                  ])
          ])
  ]
