-- ===== src/Telegram/Store.antt =====
-- pkg/telegram/dialog_cache_store.go: the index of the dialogs in a database and the storage of their
-- peers. bbolt's buckets, and gotd's peers, keys and peer storage are parameters, whose laws are what
-- the store relies on. A transaction commits as a whole or changes nothing; whether it commits, and
-- what the context answers at each check, are arguments. Errors keep their origin and not their text.
use tgdownloader.Prelude.{
  ℕ, ◌+◌, ◌*◌, ◌≡◌, Bool, true, false, ◌&&◌, ◌||◌, not, Option, none, some, List, [], ◌∷◌, Text,
  ◌==◌, Eq, nat_eq, list_eq, any, length, if◌then◌else◌,
}

pub data StoreError : Type 0 where
  context_failed parse_failed find_failed add_failed update_failed : StoreError

pub data Result {ℓ} (A : Type ℓ) : Type ℓ where
  failure : StoreError → Result A
  success : A → Result A

abbrev pub lists_key : List Text → Text → Bool
lists_key keys k = any (λ j. j == k) keys

-- A bbolt bucket whose values are empty: its keys in the order of `ForEach`.
pub record Bucket (B : Type 0) : Type 0 where
  pub empty : B
  pub put : B → Text → B
  pub delete : B → Text → B
  pub keys : B → List Text
  pub keys-empty : keys empty ≡ []
  pub keys-put :
      (b : B) (k j : Text) → lists_key (keys (put b k)) j ≡ ((k == j) || lists_key (keys b) j)
  pub keys-delete :
      (b : B) (k j : Text)
      → lists_key (keys (delete b k)) j ≡ (not (k == j) && lists_key (keys b) j)

-- `storage.PeerKey` and `storage.Peer`: a key's bytes are read back.
pub record PeerKeys (Key Peer : Type 0) : Type 0 where
  pub key_from_peer : Peer → Key
  pub bytes : Key → Text
  pub parse : Text → Option Key
  pub parse-bytes : (k : Key) → parse (bytes k) ≡ some k

-- `storage.PeerStorage`: what is added without an error is found under its key, and what is found
-- under a key has it.
pub record PeerStorage {Key Peer : Type 0} (peer_keys : PeerKeys Key Peer) (P : Type 0) ⦃e : Eq Key⦄
    : Type 0 where
  pub no_peers : P
  pub add : P → Peer → P × Bool
  pub find : P → Key → Option Peer
  pub find-add :
      (s : P) (p : Peer) (k : Key)
      → (add s p).1 ≡ true
      → find (add s p).0 k ≡ (if peer_keys.key_from_peer p == k then some p else find s k)
  pub key-find : (s : P) (k : Key) (p : Peer) → find s k ≡ some p → peer_keys.key_from_peer p ≡ k

pub record DialogDb (B P : Type 0) : Type 0 where
  pub schema_version : Option Text
  pub dialogs : Option B
  pub peers : P

-- `binary.LittleEndian.Uint64` and `PutUint64` for the one version there is.
unfoldable pub little_endian : List ℕ → ℕ
little_endian [] = 0
little_endian (b ∷ bs) = b + 256 * little_endian bs

abbrev pub encoded_version : Text
encoded_version = 1 ∷ 0 ∷ 0 ∷ 0 ∷ 0 ∷ 0 ∷ 0 ∷ 0 ∷ []

unfoldable pub is_current : Option Text → Bool
unfolding little_endian
is_current none = false
is_current (some version) = length version == 8 && little_endian version == 1

abbrev pub or_else {ℓ} : {A : Type ℓ} → Option A → A → A
or_else none a = a
or_else (some x) a = x

module _ {B : Type 0} (bucket : Bucket B) where
  abbrev pub keys_of : Option B → List Text
  keys_of none = []
  keys_of (some b) = bucket.keys b

  abbrev pub delete_key : Option B → Text → Option B
  delete_key none k = none
  delete_key (some b) k = some (bucket.delete b k)

module _ {Key Peer B P : Type 0} ⦃e : Eq Key⦄ (bucket : Bucket B) (peer_keys : PeerKeys Key Peer)
    (storage : PeerStorage peer_keys P) where
  -- `newDialogCacheStore`: a database of another version starts afresh.
  unfoldable pub new_dialog_cache_store : Bool → DialogDb B P → Result (DialogDb B P)
  new_dialog_cache_store false db = failure update_failed
  new_dialog_cache_store true db =
      let current = is_current db.schema_version in
      success (record {
        schema_version = some encoded_version;
        dialogs = some (if current then or_else db.dialogs bucket.empty else bucket.empty);
        peers = if current then db.peers else storage.no_peers;
      })

  unfoldable pub parse_keys : List Text → Option (List Key)
  parse_keys [] = some []
  parse_keys (t ∷ ts) = elim (peer_keys.parse t) [
    | none ↦ none
    | some k ↦ elim (parse_keys ts) [ none ↦ none | some ks ↦ some (k ∷ ks) ]
  ]

  -- `n` counts the checks of the context.
  unfoldable pub load_peers : (ℕ → Bool) → ℕ → P → List Key → Result (List Peer)
  load_peers ctx n s [] = success []
  load_peers ctx n s (k ∷ ks) = if ctx n then failure context_failed else elim (storage.find s k) [
    | none ↦ failure find_failed
    | some p ↦ elim (load_peers ctx (n + 1) s ks) [
      | failure x ↦ failure x
      | success ps ↦ success (p ∷ ps)
    ]
  ]

  unfoldable pub load : (ℕ → Bool) → DialogDb B P → Result (List Peer)
  unfolding load_peers parse_keys
  load ctx db = elim (parse_keys (keys_of bucket db.dialogs)) [
    | none ↦ failure parse_failed
    | some ks ↦ load_peers ctx 0 db.peers ks
  ]

  -- The peers are added one by one, outside of a transaction.
  unfoldable pub add_peers : (ℕ → Bool) → ℕ → P → List Peer → P × Option StoreError
  add_peers ctx n s [] = (s, none)
  add_peers ctx n s (p ∷ ps) =
      let rest = add_peers ctx (n + 1) (storage.add s p).0 ps in
      if ctx n
      then (s, some context_failed)
      else if (storage.add s p).1
      then rest
      else ((storage.add s p).0, some add_failed)

  unfoldable pub put_peers : B → List Peer → B
  put_peers b [] = b
  put_peers b (p ∷ ps) = put_peers (bucket.put b (peer_keys.bytes (peer_keys.key_from_peer p))) ps

  abbrev pub after_peers :
      Bool → DialogDb B P → Option B → P × Option StoreError → DialogDb B P × Option StoreError
  after_peers commits db dialogs (peers, some x) = (record db { peers = peers }, some x)
  after_peers commits db dialogs (peers, none) =
      if commits
      then (record db { peers = peers; dialogs = dialogs }, none)
      else (record db { peers = peers }, some update_failed)

  unfoldable pub replace :
      (ℕ → Bool) → Bool → DialogDb B P → List Peer → DialogDb B P × Option StoreError
  unfolding add_peers put_peers
  replace ctx commits db ps =
      after_peers commits db (some (put_peers bucket.empty ps)) (add_peers ctx 0 db.peers ps)

  abbrev added : P × Bool → P × Option StoreError
  added (s, ok) = (s, if ok then none else some add_failed)

  unfoldable pub upsert : Bool → DialogDb B P → Peer → DialogDb B P × Option StoreError
  upsert commits db p =
      after_peers commits db
        (some (
          bucket.put (or_else db.dialogs bucket.empty)
            (peer_keys.bytes (peer_keys.key_from_peer p))))
        (added (storage.add db.peers p))

  unfoldable pub remove : Bool → DialogDb B P → Key → DialogDb B P × Option StoreError
  remove false db k = (db, some update_failed)
  remove true db k =
      (record db { dialogs = delete_key bucket db.dialogs (peer_keys.bytes k) }, none)
