-- ===== src/Generic/Opening.antt =====
-- generic.go, openAndTest, Open and execute: the connection of database/sql, whose operations are
-- parameters over its state `D`.
use thesis_code.Prelude.{
  true, returned, and_then, ℕ, zero, suc, ℤ, Bool, false, Option, none, some, Returns, Returns-bind,
  AnyReturns, Exec, pure, panic, ◌>>=◌, ◌>>◌, Bool-cases, inl, inr, ◌≡◌, refl, if◌then◌else◌,
}
use thesis_code.Server.Types.{Error, Err}
use thesis_code.Generic.{max_idle}

-- ConnectionPoolConfig; the time is in nanoseconds.
pub record ConnectionPoolConfig : Type 0 where
  pub max_idle_conns : ℤ
  pub max_open : ℤ
  pub max_lifetime : ℤ

-- What the code calls of database/sql. `H` is a connection pool, `R` the result of a statement.
pub record Sql (D H R : Type 0) : Type 0 where
  pub open_db : Exec D (H × Err)
  pub ping : H → Exec D Err
  pub close : H → Exec D Err
  pub set_max_idle_conns : H → ℤ → Exec D (Unit {0})
  pub set_max_open_conns : H → ℤ → Exec D (Unit {0})
  pub set_conn_max_lifetime : H → ℤ → Exec D (Unit {0})
  pub exec_context : Exec D (R × Err)

module _ {D H R : Type 0} (sql : Sql D H R) where
  abbrev pub after_ping : H → Exec D (Option H × Err) → Err → Exec D (Option H × Err)
  after_ping db rest none = rest
  after_ping db rest (some e) = sql.close db >> pure (none, some e)

  unfoldable pub pings : ℕ → H → Exec D (Option H × Err)
  pings zero db = pure (some db, none)
  pings (suc n) db = let rest = pings n db in sql.ping db >>= λ err. after_ping db rest err

  abbrev pub after_open : H × Err → Exec D (Option H × Err)
  after_open (db, some e) = pure (none, some e)
  after_open (db, none) = pings 3 db

  unfoldable pub open_and_test : Exec D (Option H × Err)
  unfolding pings
  open_and_test = sql.open_db >>= λ a. after_open a

  unfoldable pub configure_connection_pooling : ConnectionPoolConfig → H → Exec D (Unit {0})
  configure_connection_pooling config db =
      sql.set_max_idle_conns db (max_idle config.max_idle_conns)
      >> sql.set_max_open_conns db config.max_open
      >> sql.set_conn_max_lifetime db config.max_lifetime

  -- After an attempt that gave an error: `done` says which case of the select is taken, that of the
  -- context (true) or that of the second that has passed. Both return nil and nil.
  abbrev pub after_select : Bool → Exec D (Option H × Err)
  after_select true = pure (none, none)
  after_select false = pure (none, none)

  -- The tries that are left, what the last one gave, and what follows the loop.
  unfoldable pub connect :
      ℕ
      → Exec D Bool
      → Option H × Err
      → (Option H × Err → Exec D (Option H × Err))
      → Exec D (Option H × Err)
  unfolding open_and_test
  connect zero done last behind = behind last
  connect (suc n) done last behind =
      open_and_test >>= λ a. elim a.1 [ none ↦ behind a | some e ↦ done >>= λ b. after_select b ]

  -- Behind the loop. A nil pool panics.
  abbrev pub after_connect : ConnectionPoolConfig → Option H × Err → Exec D (Option H × Err)
  after_connect config (none, err) = panic
  after_connect config (some db, err) =
      configure_connection_pooling config db >> pure (some db, none)

  -- The pool of the Generic that Open returns.
  unfoldable pub open_pool : ConnectionPoolConfig → Exec D Bool → Exec D (Option H × Err)
  unfolding connect configure_connection_pooling
  open_pool config done = connect 300 done (none, none) (after_connect config)

  abbrev pub is_retried : Option (Error → Bool) → Err → Bool
  is_retried (some retry) (some e) = retry e
  is_retried (some retry) none = false
  is_retried none err = false

  -- The tries that are left, and what the last one gave. The wait between two tries is left out.
  unfoldable pub tries : ℕ → Option (Error → Bool) → R × Err → Exec D (R × Err)
  tries zero retry last s = pure last s
  tries (suc n) retry last s =
      let next = λ (a : R × Err) (t : D). tries n retry a t in
      (sql.exec_context >>= λ a. if is_retried retry a.1 then next a else pure a) s

  -- `lock` and `unlock` are those of the mutex of the Generic; `nothing` is the nil result.
  unfoldable pub execute :
      Option (Error → Bool) → Bool → Exec D (Unit {0}) → Exec D (Unit {0}) → R → Exec D (R × Err)
  unfolding tries
  execute retry lock_writes lock unlock nothing =
      let tried = tries 20 retry (nothing, none) in
      if lock_writes then (lock >> tried >>= λ a. unlock >> pure a) else tried

  -- If the connection opens and its first ping gives an error, then, whatever the answers to later
  -- attempts would be and whichever case of the select is taken, Open makes no call but that ping, the
  -- close and the wait, and returns no Generic and no error: it does not try again.
  pub open_pool_once :
      (config : ConnectionPoolConfig) (done : Exec D Bool) (db : H) (e : Error) (closed : Err)
      (is_done : Bool) (s opened pinged shut waited : D)
      → sql.open_db s ≡ returned ((db, none), opened)
      → sql.ping db opened ≡ returned (some e, pinged)
      → sql.close db pinged ≡ returned (closed, shut)
      → done shut ≡ returned (is_done, waited)
      → open_pool config done s ≡ returned ((none, none), waited)
  unfolding open_pool
  open_pool_once config done db e closed true s opened pinged shut waited o p c w =
      rw (o, p, c, w) refl
  open_pool_once config done db e closed false s opened pinged shut waited o p c w =
      rw (o, p, c, w) refl

  tries_lem :
      (P : R × Err → Type 0) (n : ℕ) (retry : Option (Error → Bool)) (last : R × Err) (s : D)
      → ((t : D) → Returns P (sql.exec_context t))
      → P last
      → Returns P (tries n retry last s)
  unfolding tries
  tries_lem P zero retry last s h p = p
  tries_lem P (suc n) retry last s h p = Returns-bind P P (sql.exec_context s) _ (h s) λ a t q.
      elim (Bool-cases (is_retried retry a.1)) [
        | inl b ↦ rw b (tries_lem P n retry a t h q)
        | inr b ↦ rw b q
      ]

  -- If the mutex and the calls of the database return, then execute returns, after 20 tries at most,
  -- and what it returns is what a call of the database gave.
  execute_lem :
      (P : R × Err → Type 0) (retry : Option (Error → Bool)) (lock_writes : Bool)
      (lock unlock : Exec D (Unit {0})) (nothing : R) (s : D)
      → ((t : D) → AnyReturns (lock t))
      → ((t : D) → AnyReturns (unlock t))
      → ((t : D) → Returns P (sql.exec_context t))
      → Returns P (execute retry lock_writes lock unlock nothing s)
  unfolding execute
  execute_lem P retry lock_writes lock unlock nothing s l u h = elim (Bool-cases lock_writes) [
    | inl b ↦ rw b (
        Returns-bind P P (and_then (lock s) λ _. tries 20 retry (nothing, none)) _
          (Returns-bind (λ _. Unit {0}) P (lock s) _ (l s) λ _ t _. tried t)
          λ a w p. Returns-bind (λ _. Unit {0}) P (unlock w) _ (u w) λ _ x _. p)
    | inr b ↦ rw b (tried s)
  ]
    where
      tried : (t : D) → Returns P (tries 20 retry (nothing, none) t)
      tried t = Returns-bind P P (sql.exec_context t) _ (h t) λ a w q.
          elim (Bool-cases (is_retried retry a.1)) [
            | inl b ↦ rw b (tries_lem P 19 retry a w h q)
            | inr b ↦ rw b q
          ]
