-- ===== src/Client/Writes.antt =====
-- What the writes of the client do at the backend behind the server.
use thesis_code.Prelude.{
  Bytes, ℤ, pos, ◌==ℤ◌, Bool, true, false, [], ◌∷◌, Option, none, some, Outcome, returned, panicked,
  out_of_fuel, pure, and_then, map_result, ◌≡◌, refl, ap, ◌∙◌,
}
use thesis_code.Etcd.{EtcdRangeResponse}
use thesis_code.Server.Types.{Error, KeyValue, Err, Backend}
use thesis_code.Server.Limited.{Reply, create_reply, update_reply, delete_reply, txn}
use thesis_code.Server.Limited.Dispatch.{create_txn, update_txn, delete_txn, txn_client_forms}
use thesis_code.Client.{
  op_put, op_get, op_delete, EtcdClient, not_found, key_exists, mismatch, committed, create, update,
  delete, put,
}

-- The etcd client sends these transactions to the server and returns its answer. The lease of a put
-- is 0.
pub record Reaches {S : Type 0} (c : EtcdClient S) (backend : Backend S) : Type 0 where
  pub sends_create :
      (key value : Bytes) (s : S)
      → c.commit (record { key = key; revision = pos 0 } ∷ []) (op_put key value ∷ []) [] s
        ≡ txn backend (create_txn key value (pos 0)) s
  pub sends_update :
      (key : Bytes) (revision : ℤ) (value : Bytes) (s : S)
      → c.commit
          (record { key = key; revision = revision } ∷ [])
          (op_put key value ∷ [])
          (op_get key ∷ [])
          s
        ≡ txn backend (update_txn key revision value (pos 0)) s
  pub sends_delete :
      (key : Bytes) (revision : ℤ) (s : S)
      → c.commit
          (record { key = key; revision = revision } ∷ [])
          (op_delete key ∷ [])
          (op_get key ∷ [])
          s
        ≡ txn backend (delete_txn key revision) s

-- What a caller of the client gets for what the backend returned.
abbrev pub create_error : ℤ × Err → Err
create_error (rev, some Error.key_exists) = some key_exists
create_error (rev, some e) = some e
create_error (rev, none) = none

abbrev pub write_error : ℤ → ℤ × Option KeyValue × Bool × Err → Err
write_error revision (rev, kv, done, some e) = some e
write_error revision (rev, kv, true, none) = none
write_error revision (rev, kv, false, none) = some (mismatch revision)

committed-create :
    {S : Type 0} (a : ℤ × Err) (s : S)
    → committed key_exists (create_reply a) s ≡ pure (create_error a) s
committed-create (rev, some Error.key_exists) s = refl
committed-create (rev, some _) s = refl
committed-create (rev, none) s = refl

committed-update :
    {S : Type 0} (revision : ℤ) (a : ℤ × Option KeyValue × Bool × Err) (s : S)
    → committed (mismatch revision) (update_reply a) s ≡ pure (write_error revision a) s
committed-update revision (rev, kv, ok, some e) s = refl
committed-update revision (rev, kv, true, none) s = refl
committed-update revision (rev, kv, false, none) s = refl

committed-delete :
    {S : Type 0} (revision : ℤ) (a : ℤ × Option KeyValue × Bool × Err) (s : S)
    → committed (mismatch revision) (delete_reply a) s ≡ pure (write_error revision a) s
committed-delete revision (rev, kv, ok, some e) s = refl
committed-delete revision (rev, kv, true, none) s = refl
committed-delete revision (rev, kv, false, none) s = refl

through :
    {S A : Type 0} (o : Outcome (A × S)) (e : Error) (g : A → Reply) (h : A → Err)
    → ((a : A) (s : S) → committed e (g a) s ≡ pure (h a) s)
    → and_then (and_then o (λ a. pure (g a))) (committed e) ≡ and_then o (λ a. pure (h a))
through (returned (a, s)) e g h k = k a s
through panicked e g h k = refl
through out_of_fuel e g h k = refl

module _ {S : Type 0} (c : EtcdClient S) (backend : Backend S) (reaches : Reaches c backend)
    (key : Bytes) where
  -- If the etcd client hands its transactions to the server, then Create, Delete at a revision, and
  -- Update at a revision that is not 0 call that operation of the backend, once, on that key. The
  -- caller gets no error exactly when the backend reports the write as done, an error of its own when
  -- the backend refused it, and any other error of the backend as it is.
  pub client_writes :
      (value : Bytes) (revision : ℤ) (s : S)
      → (revision ==ℤ pos 0) ≡ false
      → (create c key value s ≡ map_result create_error (backend.create key value (pos 0)) s)
        × (update c key revision value s
            ≡ map_result (write_error revision) (backend.update key value revision (pos 0)) s)
        × (delete c key revision s
            ≡ map_result (write_error revision) (backend.delete key revision) s)
  unfolding create update delete
  client_writes value revision s h =
      let (make, change, remove, compact) = txn_client_forms backend key value revision (pos 0) in
      (
        ap (λ o. and_then o (committed key_exists))
              (reaches.sends_create key value s ∙ ap (λ m. m s) make)
            ∙ through (backend.create key value (pos 0) s) key_exists create_reply create_error
                committed-create,
        ap (λ o. and_then o (committed (mismatch revision)))
              (reaches.sends_update key revision value s ∙ ap (λ m. m s) (rw h at change))
            ∙ through (backend.update key value revision (pos 0) s) (mismatch revision) update_reply
                (write_error revision) (committed-update revision),
        ap (λ o. and_then o (committed (mismatch revision)))
              (reaches.sends_delete key revision s ∙ ap (λ m. m s) remove)
            ∙ through (backend.delete key revision s) (mismatch revision) delete_reply
                (write_error revision) (committed-delete revision),
      )

-- Put on a key for which Get finds no value returns that error and sends no transaction: a key that
-- does not exist is not created.
pub put_missing :
    {S : Type 0} (c : EtcdClient S) (key value : Bytes) (resp : EtcdRangeResponse) (s t : S)
    → c.get key s ≡ returned ((some resp, none), t)
    → resp.kvs ≡ []
    → put c key value s ≡ returned (some not_found, t)
unfolding put
put_missing c key value resp s t h k = rw (h, k)
