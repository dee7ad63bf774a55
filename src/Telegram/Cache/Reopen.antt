-- ===== src/Telegram/Cache/Reopen.antt =====
-- Opening the database again: the cache that it loads is the one that was there.
use tgdownloader.Prelude.{
  ℕ, ◌+◌, ◌≡◌, refl, Bool, true, false, none, some, List, [], ◌∷◌, Text, ◌==◌, Eq, nat_eq, list_eq,
  list_beq_iff, beq_refl, Option, any, if◌then◌else◌, arith, Option-cases, inl, inr,
}
use mathlib.Core.Path.{fun_ext}
use tgdownloader.Prelude.Map
use tgdownloader.Telegram.Store.{
  success, Bucket, PeerKeys, PeerStorage, DialogDb, encoded_version, is_current, or_else,
  new_dialog_cache_store, load, lists_key, keys_of, load_peers, parse_keys,
}
use tgdownloader.Telegram.Cache.{DialogCache, put_all, new_dialog_cache, dialog}
use tgdownloader.Telegram.Cache.Consistent.{
  IsConsistent, canonical_key, last_with, get-put_all, bytes_beq, is_some,
}

abbrev pub never : ℕ → Bool
never n = false

module _ {Key Peer B P : Type 0} ⦃e : Eq Key⦄ (bucket : Bucket B) (peer_keys : PeerKeys Key Peer)
    (storage : PeerStorage peer_keys P) where
  record Parsed (ts : List Text) : Type 0 where
    keys : List Key
    parses : parse_keys bucket peer_keys storage ts ≡ some keys
    same : (k : Key) → any (λ j. j == k) keys ≡ lists_key ts (peer_keys.bytes k)

  canonical-cases :
      (t : Text)
      → canonical_key bucket peer_keys storage t ≡ true
      → (k : Key) × (peer_keys.parse t ≡ some k) × (peer_keys.bytes k ≡ t)
  canonical-cases t h = elim (Option-cases (peer_keys.parse t)) [
    | inl q ↦ ground (arith, q)
    | inr (k, q) ↦ (k, q, ground (arith, q, list_beq_iff (peer_keys.bytes k) t))
  ]

  parse_keys-cons :
      (t : Text) (ts : List Text) (k : Key) (ks : List Key)
      → peer_keys.parse t ≡ some k
      → parse_keys bucket peer_keys storage ts ≡ some ks
      → parse_keys bucket peer_keys storage (t ∷ ts) ≡ some (k ∷ ks)
  unfolding parse_keys
  parse_keys-cons t ts k ks p q = ground (arith, p, q)

  parse_keys-Parsed :
      (ts : List Text)
      → ((t : Text) → lists_key ts t ≡ true → canonical_key bucket peer_keys storage t ≡ true)
      → Parsed ts
  unfolding parse_keys
  parse_keys-Parsed [] h = record { keys = []; parses = refl; same = λ k. refl }
  parse_keys-Parsed (t ∷ ts) h =
      let rest = parse_keys-Parsed ts (λ u q. h u (ground (arith, q))) in
      let (k, parsed, written) = canonical-cases t (h t (ground (arith, beq_refl t))) in
      record {
        keys = k ∷ rest.keys;
        parses = parse_keys-cons t ts k rest.keys parsed rest.parses;
        same = λ j. ground (
          arith,
          rest.same j,
          bytes_beq bucket peer_keys storage k j,
          written,
          list_beq_iff t (peer_keys.bytes j),
          list_beq_iff (peer_keys.bytes k) (peer_keys.bytes j),
        );
      }

  record Loaded (n : ℕ) (s : P) (ks : List Key) : Type 0 where
    peers : List Peer
    loads : load_peers bucket peer_keys storage never n s ks ≡ success peers
    same :
        (k : Key)
        → last_with bucket peer_keys storage peers k
          ≡ (if any (λ j. j == k) ks then storage.find s k else none)

  load_peers-Loaded :
      (n : ℕ) (s : P) (ks : List Key)
      → ((k : Key) → any (λ j. j == k) ks ≡ true → is_some (storage.find s k) ≡ true)
      → Loaded n s ks
  unfolding load_peers last_with
  load_peers-Loaded n s [] h = record { peers = []; loads = refl; same = λ k. refl }
  load_peers-Loaded n s (k ∷ ks) h =
      let rest = load_peers-Loaded (n + 1) s ks (λ j q. h j (ground (arith, q))) in
      elim (Option-cases (storage.find s k)) [
        | inl q ↦ ground (arith, q, h k, beq_refl k)
        | inr (p, q) ↦ record {
          peers = p ∷ rest.peers;
          loads = rw (q, rest.loads) refl;
          same = λ j. ground (arith, rest.same j, q, storage.key-find s k p q, e.beq_iff k j);
        }
      ]

  opened :
      (db : DialogDb B P) (ks : List Key) (ps : List Peer)
      → parse_keys bucket peer_keys storage (keys_of bucket db.dialogs) ≡ some ks
      → load_peers bucket peer_keys storage never 0 db.peers ks ≡ success ps
      → new_dialog_cache bucket peer_keys storage never db
        ≡ success (record { store = db; peers = put_all bucket peer_keys storage [] ps })
  unfolding new_dialog_cache load
  opened db ks ps p q = ground (arith, p, q)

  -- What loading the dialogs of a cache's database gives.
  record Reloaded (c : DialogCache Key Peer B P) : Type 0 where
    cache : DialogCache Key Peer B P
    loads : new_dialog_cache bucket peer_keys storage never c.store ≡ success cache
    same : (k : Key) → Map.get cache.peers k ≡ Map.get c.peers k

  new_dialog_cache-Reloaded :
      (c : DialogCache Key Peer B P) → IsConsistent bucket peer_keys storage c → Reloaded c
  unfolding Map.get
  new_dialog_cache-Reloaded c v =
      let parsed = parse_keys-Parsed (keys_of bucket c.store.dialogs) v.canonical in
      let loaded =
        load_peers-Loaded 0 c.store.peers parsed.keys
          (λ k q. ground (arith, q, parsed.same k, v.listed k, v.found k)) in
      record {
        cache = record {
          store = c.store;
          peers = put_all bucket peer_keys storage [] loaded.peers;
        };
        loads = opened c.store parsed.keys loaded.peers parsed.parses loaded.loads;
        same = λ k. ground (
          arith,
          get-put_all bucket peer_keys storage [] loaded.peers k,
          loaded.same k,
          parsed.same k,
          v.listed k,
          v.found k,
        );
      }

  -- The database of a version that is current, as `newDialogCacheStore` leaves it.
  kept_db : DialogDb B P → DialogDb B P
  kept_db db = record {
    schema_version = some encoded_version;
    dialogs = some (or_else db.dialogs bucket.empty);
    peers = db.peers;
  }

  new_dialog_cache_store-current :
      (db : DialogDb B P)
      → is_current db.schema_version ≡ true
      → new_dialog_cache_store bucket peer_keys storage true db ≡ success (kept_db db)
  unfolding new_dialog_cache_store kept_db
  new_dialog_cache_store-current db h = rw h refl

  keys_of-kept :
      (dialogs : Option B)
      → keys_of bucket (some (or_else dialogs bucket.empty)) ≡ keys_of bucket dialogs
  keys_of-kept none = bucket.keys-empty
  keys_of-kept (some b) = refl

  kept_db-IsConsistent :
      (c : DialogCache Key Peer B P)
      → IsConsistent bucket peer_keys storage c
      → IsConsistent bucket peer_keys storage (record c { store = kept_db c.store })
  unfolding kept_db
  kept_db-IsConsistent c v = record {
    listed = λ k. rw (keys_of-kept c.store.dialogs) (v.listed k);
    found = v.found;
    canonical = λ t h. v.canonical t (rw (keys_of-kept c.store.dialogs) at h);
  }

  -- What opening the database of a cache gives: the store, and the cache that is loaded from it.
  pub record Reopened (c : DialogCache Key Peer B P) : Type 0 where
    pub store : DialogDb B P
    pub cache : DialogCache Key Peer B P
    pub opens : new_dialog_cache_store bucket peer_keys storage true c.store ≡ success store
    pub loads : new_dialog_cache bucket peer_keys storage never store ≡ success cache
    pub same_dialogs : dialog bucket peer_keys storage cache ≡ dialog bucket peer_keys storage c

  -- A cache that agrees with its store is found again when the program starts. Where the schema
  -- version of the database is current and the transaction commits, `newDialogCacheStore` keeps
  -- the dialogs; under a context that is not canceled, `newDialogCache` then reads every key of
  -- the index, finds every peer, and gives a cache with the same peer under each key.
  pub new_dialog_cache-Reopened :
      (c : DialogCache Key Peer B P)
      → is_current c.store.schema_version ≡ true
      → IsConsistent bucket peer_keys storage c
      → Reopened c
  unfolding dialog
  new_dialog_cache-Reopened c h v =
      let again =
        new_dialog_cache-Reloaded (record c { store = kept_db c.store })
          (kept_db-IsConsistent c v) in
      record {
        store = kept_db c.store;
        cache = again.cache;
        opens = new_dialog_cache_store-current c.store h;
        loads = again.loads;
        same_dialogs = fun_ext again.same;
      }
