-- ===== src/Tests/MemoryBucket.antt =====
-- A bucket in memory, toy codecs and a driver over them, for the tests of the NATS driver. A state
-- is the stream, with its newest entry first.
use thesis_code.Prelude.{
  ℕ, zero, suc, ◌+◌, ◌/◌, ◌==◌, Bytes, codes, bytes_eq, ℤ, pos, negsuc, Bool, true, false, List, [],
  ◌∷◌, ◌++◌, map, length, take, drop, Option, none, some, Result, ok, failed, Exec, Outcome, pure,
  Ends, ◌≡◌, refl, inl, ap, arith, Lacks, if◌then◌else◌,
}
use thesis_code.Server.Types.{Error, Err}
use thesis_code.Nats.Codec.{Base58, dot}
use thesis_code.Nats.Codec.Roundtrip.{IsBase58}
use thesis_code.Nats.Bucket.{Operation, Entry, Watcher, Bucket}
use thesis_code.Nats.Bucket.Contract.{View, answer, Written, Laws}
use thesis_code.Nats.Driver.{JsValue, Driver, empty_value}
use thesis_code.Nats.Driver.Contract.{JsonLaws, DriverLaws}

abbrev pub Stream : Type 0
Stream = List Entry

abbrev pub put_only : Entry → Option Entry
put_only e = elim e.operation [
  | Operation.key_value_put ↦ some e
  | Operation.key_value_delete ↦ none
  | Operation.key_value_purge ↦ none
]

abbrev pub newest : Stream → Bytes → Option Entry
newest [] key = none
newest (e ∷ stream) key = if bytes_eq e.key key then put_only e else newest stream key

abbrev pub entry : Bytes → Bytes → Operation → Stream → Entry
entry key value operation stream = record {
  key = key;
  value = value;
  revision = suc (length stream);
  created = pos 0;
  operation = operation;
}

abbrev pub store : Bytes → Bytes → Exec Stream (Result Error ℕ)
store key value stream =
    Outcome.returned
      ((ok (suc (length stream)), entry key value Operation.key_value_put stream ∷ stream))

abbrev pub store_new : Bytes → Bytes → Option Entry → Exec Stream (Result Error ℕ)
store_new key value none = store key value
store_new key value (some e) = pure (failed Error.key_exists)

abbrev pub mark : Bytes → Operation → Exec Stream Err
mark key operation stream = Outcome.returned ((none, entry key [] operation stream ∷ stream))

abbrev pub at_revision : Bytes → ℕ → Stream → Result Error Entry
at_revision key revision [] = failed Error.key_not_found
at_revision key revision (e ∷ stream) =
    if e.revision == revision then answer (put_only e) else at_revision key revision stream

abbrev pub entries_of : Bytes → Stream → List Entry
entries_of key [] = []
entries_of key (e ∷ stream) =
    if bytes_eq e.key key then entries_of key stream ++ e ∷ [] else entries_of key stream

abbrev pub newest_list : Option Entry → List Entry
newest_list none = []
newest_list (some e) = e ∷ []

-- A watch of one key sends its newest entry.
abbrev pub watch_key : Option Entry → Watcher Stream
watch_key o = record { updates = map some (newest_list o) ++ none ∷ []; stop = pure none }

abbrev pub memory : Bucket Stream
memory = record {
  get = λ key stream. Outcome.returned ((answer (newest stream key), stream));
  get_revision =
      λ key revision stream. Outcome.returned ((at_revision key revision stream, stream));
  put = store;
  create = λ key value stream. store_new key value (newest stream key) stream;
  update = λ key value last. store key value;
  delete = λ key. mark key Operation.key_value_delete;
  purge = λ key. mark key Operation.key_value_purge;
  watch =
      λ prefix meta_only stream. Outcome.returned ((ok (watch_key (newest stream prefix)), stream));
  history = λ key stream. Outcome.returned ((ok (entries_of key stream), stream));
  keys = λ stream. Outcome.returned ((ok (map (λ e. e.key) stream), stream));
  status = λ stream.
      Outcome.returned
        ((ok (record { first_seq = 1; last_seq = length stream; size = 0 }), stream));
}

abbrev pub stream_view : View Stream
stream_view = record { seq = length; newest = newest }

abbrev pub AnyKey : Bytes → Type 0
AnyKey key = Unit {0}

memory_create :
    (key value : Bytes) (s : Stream)
    → newest s key ≡ none
    → Ends (Written stream_view AnyKey key value s) (memory.create key value s)
memory_create key value s h = rw h (
    inl (
      refl,
      (entry key value Operation.key_value_put s, refl, refl, refl, (omega arith, λ k _. refl)),
    ))

pub memory-Laws : Laws stream_view AnyKey memory
memory-Laws = record {
  get_lem = λ key s _. (refl, (refl, λ k _. refl));
  put_lem = λ key value s _. inl (
    refl,
    (entry key value Operation.key_value_put s, refl, refl, refl, (omega arith, λ k _. refl)),
  );
  create_lem = λ key value s _ h. memory_create key value s h;
  delete_lem = λ key s _. inl (refl, (omega arith, λ k _. refl));
  status_lem = λ s. (_, refl, refl, (refl, λ k _. refl));
}

-- In the place of base58: every byte as an odd number.
abbrev odd : ℕ → ℕ
odd n = n + n + 1

abbrev half : ℕ → ℕ
half n = n / 2

abbrev pub toy58 : Base58
toy58 = record { encode = map odd; decode = λ text. ok (map half text) }

half-odd : (s : Bytes) → map half (map odd s) ≡ s
half-odd [] = refl
half-odd (c ∷ s) = let e : half (odd c) ≡ c = omega arith in rw (e, half-odd s) refl

odd-Lacks : (s : Bytes) → Lacks dot (map odd s)
odd-Lacks [] = tt
odd-Lacks (c ∷ s) = (ground arith, odd-Lacks s)

pub toy58-IsBase58 : IsBase58 toy58
toy58-IsBase58 = record {
  decode-encode = λ part. ap ok (half-odd part);
  encode-Lacks = odd-Lacks;
  encode_empty = refl;
}

-- In the place of JSON: numbers one after the other, and the length of the key before it.
abbrev sign : ℤ → ℕ
sign (pos n) = 0
sign (negsuc n) = 1

abbrev magnitude : ℤ → ℕ
magnitude (pos n) = n
magnitude (negsuc n) = n

abbrev int : ℕ → ℕ → ℤ
int zero n = pos n
int (suc k) n = negsuc n

abbrev flag : Bool → ℕ
flag false = 0
flag true = 1

abbrev bool : ℕ → Bool
bool zero = false
bool (suc n) = true

abbrev pub toy_marshal : JsValue → Result Error Bytes
toy_marshal x = elim x.kv [
  | none ↦ failed Error.invalid_key
  | some kv ↦ ok (
      flag x.create
        ∷ flag x.delete
        ∷ sign x.prev_revision
        ∷ magnitude x.prev_revision
        ∷ sign kv.create_revision
        ∷ magnitude kv.create_revision
        ∷ sign kv.mod_revision
        ∷ magnitude kv.mod_revision
        ∷ sign kv.lease
        ∷ magnitude kv.lease
        ∷ length kv.key
        ∷ kv.key
      ++ kv.value)
]

abbrev pub toy_unmarshal : Bytes → JsValue × Err
toy_unmarshal (c ∷ dl ∷ ps ∷ pm ∷ cs ∷ cm ∷ ms ∷ mm ∷ ls ∷ lm ∷ n ∷ rest) = (
  record {
    kv = some (record {
      key = take n rest;
      create_revision = int cs cm;
      mod_revision = int ms mm;
      value = drop n rest;
      lease = int ls lm;
    });
    prev_revision = int ps pm;
    create = bool c;
    delete = bool dl;
  },
  none,
)
toy_unmarshal _ = (empty_value, some (Error.external (codes "invalid")))

int-sign : (z : ℤ) → int (sign z) (magnitude z) ≡ z
int-sign (pos n) = refl
int-sign (negsuc n) = refl

bool-flag : (b : Bool) → bool (flag b) ≡ b
bool-flag true = refl
bool-flag false = refl

take-append : (xs ys : Bytes) → take (length xs) (xs ++ ys) ≡ xs
take-append [] ys = refl
take-append (x ∷ xs) ys = rw (take-append xs ys) refl

drop-append : (xs ys : Bytes) → drop (length xs) (xs ++ ys) ≡ ys
drop-append [] ys = refl
drop-append (x ∷ xs) ys = drop-append xs ys

abbrev pub toy_driver : Driver Stream
toy_driver = record {
  kv = memory;
  now = pure (pos 0);
  lock = λ folder. pure tt;
  unlock = λ folder. pure tt;
  marshal = toy_marshal;
  unmarshal = toy_unmarshal;
}

toy_json : JsonLaws toy_driver AnyKey
toy_json x kv has _ = rw has (
  _,
  refl,
  refl,
  rw
      (
        int-sign x.prev_revision,
        int-sign kv.create_revision,
        int-sign kv.mod_revision,
        int-sign kv.lease,
        bool-flag x.create,
        bool-flag x.delete,
        take-append kv.key kv.value,
        drop-append kv.key kv.value,
        ← has,
      )
      refl,
)

pub toy_driver-Laws : DriverLaws toy_driver stream_view AnyKey
toy_driver-Laws = record {
  bucket = memory-Laws;
  json = toy_json;
  now_lem = λ s. (refl, λ k _. refl);
  lock_lem = λ folder s. (refl, λ k _. refl);
  unlock_lem = λ folder s. (refl, λ k _. refl);
}
