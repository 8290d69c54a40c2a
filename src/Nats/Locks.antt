-- ===== src/Nats/Locks.antt =====
-- kine/pkg/drivers/nats/nats.go: lockFolder, as the steps of goroutines that share the driver. The
-- mutex of a folder is made under dirMu when the folder is locked for the first time, and is found
-- in the map subMus afterwards. A goroutine and a mutex are numbers.
pub mod Exclusion
use thesis_code.Prelude.{
  ℕ, suc, Bytes, bytes_eq, ◌==◌, Bool, List, [], ◌∷◌, Option, none, some, ◌≡◌, if◌then◌else◌,
}

-- Where a goroutine stands. A folder stands with each place from the call to the unlock.
pub data Place : Type 0 where
  idle : Place
  -- before dirMu.Lock()
  called : Bytes → Place
  -- dirMu is held
  inside : Bytes → Place
  -- subMus was read
  looked : Bytes → Option ℕ → Place
  -- the mutex is known, and dirMu still held
  located : Bytes → ℕ → Place
  -- after dirMu.Unlock(), before mu.Lock()
  waiting : Bytes → ℕ → Place
  -- mu is held
  working : Bytes → ℕ → Place

pub record Locks : Type 0 where
  pub dir_mu : Option ℕ
  pub sub_mus : List (Bytes × ℕ)
  pub next_mutex : ℕ
  pub owner : ℕ → Option ℕ
  pub place : ℕ → Place

unfoldable pub lookup : Bytes → List (Bytes × ℕ) → Option ℕ
unfolding bytes_eq
lookup folder [] = none
lookup folder ((f, m) ∷ table) = if bytes_eq f folder then some m else lookup folder table

abbrev pub set_place : ℕ → Place → (ℕ → Place) → ℕ → Place
set_place i p place j = if i == j then p else place j

abbrev pub set_owner : ℕ → Option ℕ → (ℕ → Option ℕ) → ℕ → Option ℕ
set_owner m o owner n = if m == n then o else owner n

abbrev pub start : Locks
start = record { dir_mu = none; sub_mus = []; next_mutex = 0; owner = λ m. none; place = λ i. idle }

-- One step of the goroutine `i`.
pub data Step (i : ℕ) (s : Locks) : Locks → Type 0 where
  call :
      (f : Bytes)
      → s.place i ≡ idle
      → Step i s (record s { place = set_place i (called f) s.place })
  lock_dir :
      (f : Bytes)
      → s.place i ≡ called f
      → s.dir_mu ≡ none
      → Step i s (record s { dir_mu = some i; place = set_place i (inside f) s.place })
  look :
      (f : Bytes)
      → s.place i ≡ inside f
      → Step i s (record s { place = set_place i (looked f (lookup f s.sub_mus)) s.place })
  take_old :
      (f : Bytes) (m : ℕ)
      → s.place i ≡ looked f (some m)
      → Step i s (record s { place = set_place i (located f m) s.place })
  make_new :
      (f : Bytes)
      → s.place i ≡ looked f none
      → Step i s (record s {
        sub_mus = (f, s.next_mutex) ∷ s.sub_mus;
        next_mutex = suc s.next_mutex;
        place = set_place i (located f s.next_mutex) s.place;
      })
  unlock_dir :
      (f : Bytes) (m : ℕ)
      → s.place i ≡ located f m
      → Step i s (record s { dir_mu = none; place = set_place i (waiting f m) s.place })
  lock :
      (f : Bytes) (m : ℕ)
      → s.place i ≡ waiting f m
      → s.owner m ≡ none
      → Step i s (record s {
        owner = set_owner m (some i) s.owner;
        place = set_place i (working f m) s.place;
      })
  unlock :
      (f : Bytes) (m : ℕ)
      → s.place i ≡ working f m
      → Step i s (record s { owner = set_owner m none s.owner; place = set_place i idle s.place })

-- Steps of any goroutines, in any order.
pub data Reach : Locks → Type 0 where
  begin : Reach start
  advance : {s t : Locks} (i : ℕ) → Reach s → Step i s t → Reach t
