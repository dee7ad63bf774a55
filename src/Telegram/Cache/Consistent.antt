-- ===== src/Telegram/Cache/Consistent.antt =====
-- When the cache in memory and the store agree, and that each change keeps it.
use tgdownloader.Prelude.{
  ℕ, ◌+◌, ◌≡◌, refl, Bool, true, false, ◌&&◌, ◌||◌, not, Option, none, some, List, [], ◌∷◌, Text,
  ◌==◌, Eq, nat_eq, list_eq, list_beq_iff, any, if◌then◌else◌, arith,
}
use tgdownloader.Prelude.Map
use tgdownloader.Prelude.Map.{Map, get-put, get-delete}
use tgdownloader.Telegram.Store.{
  Bucket, PeerKeys, PeerStorage, DialogDb, lists_key, keys_of, delete_key, add_peers, put_peers,
  or_else,
}
use tgdownloader.Telegram.Cache.{DialogCache, put_all}

abbrev pub is_some {ℓ} : {A : Type ℓ} → Option A → Bool
is_some none = false
is_some (some x) = true

abbrev pub first_of {ℓ} : {A : Type ℓ} → Option A → Option A → Option A
first_of none y = y
first_of (some x) y = some x

module _ {Key Peer B P : Type 0} ⦃e : Eq Key⦄ (bucket : Bucket B) (peer_keys : PeerKeys Key Peer)
    (storage : PeerStorage peer_keys P) where
  abbrev bytes_of : Peer → Text
  bytes_of p = peer_keys.bytes (peer_keys.key_from_peer p)

  -- The last of the peers that has the key.
  unfoldable pub last_with : List Peer → Key → Option Peer
  last_with [] k = none
  last_with (p ∷ ps) k =
      first_of (last_with ps k) (if peer_keys.key_from_peer p == k then some p else none)

  pub bytes_beq : (j k : Key) → (peer_keys.bytes j == peer_keys.bytes k) ≡ (j == k)
  bytes_beq j k = ground (
    arith,
    e.beq_iff j k,
    list_beq_iff (peer_keys.bytes j) (peer_keys.bytes k),
    peer_keys.parse-bytes j,
    peer_keys.parse-bytes k,
  )

  pub get-put_all :
      (m : Map Key Peer) (ps : List Peer) (k : Key)
      → Map.get (put_all bucket peer_keys storage m ps) k ≡ first_of (last_with ps k) (Map.get m k)
  unfolding put_all last_with
  get-put_all m [] k = refl
  get-put_all m (p ∷ ps) k = ground (
    arith,
    get-put_all (Map.put m (peer_keys.key_from_peer p) p) ps k,
    get-put m (peer_keys.key_from_peer p) k p,
  )

  keys-put_peers :
      (b : B) (ps : List Peer) (t : Text)
      → lists_key (bucket.keys (put_peers bucket peer_keys storage b ps)) t
        ≡ (any (λ p. bytes_of p == t) ps || lists_key (bucket.keys b) t)
  unfolding put_peers
  keys-put_peers b [] t = refl
  keys-put_peers b (p ∷ ps) t =
      ground
        (arith, keys-put_peers (bucket.put b (bytes_of p)) ps t, bucket.keys-put b (bytes_of p) t)

  any-last_with :
      (ps : List Peer) (k : Key)
      → any (λ p. bytes_of p == peer_keys.bytes k) ps ≡ is_some (last_with ps k)
  unfolding last_with
  any-last_with [] k = refl
  any-last_with (p ∷ ps) k =
      ground (arith, any-last_with ps k, bytes_beq (peer_keys.key_from_peer p) k)

  find-add_peers :
      (ctx : ℕ → Bool) (n : ℕ) (s : P) (ps : List Peer) (k : Key)
      → (add_peers bucket peer_keys storage ctx n s ps).1 ≡ none
      → storage.find (add_peers bucket peer_keys storage ctx n s ps).0 k
        ≡ first_of (last_with ps k) (storage.find s k)
  unfolding add_peers last_with
  find-add_peers ctx n s [] k h = refl
  find-add_peers ctx n s (p ∷ ps) k h =
      ground (arith, find-add_peers ctx (n + 1) (storage.add s p).0 ps k, storage.find-add s p k)

  abbrev pub canonical_key : Text → Bool
  canonical_key t = elim (peer_keys.parse t) [ none ↦ false | some k ↦ peer_keys.bytes k == t ]

  -- Memory and store agree: the index has the keys of the memory, in the form in which they are
  -- written, and the peer storage finds the peers of the memory.
  pub record IsConsistent (c : DialogCache Key Peer B P) : Type 0 where
    pub listed :
        (k : Key)
        → lists_key (keys_of bucket c.store.dialogs) (peer_keys.bytes k) ≡ Map.has c.peers k
    pub found :
        (k : Key) → Map.has c.peers k ≡ true → storage.find c.store.peers k ≡ Map.get c.peers k
    pub canonical :
        (t : Text) → lists_key (keys_of bucket c.store.dialogs) t ≡ true → canonical_key t ≡ true

  canonical-put_peers :
      (ps : List Peer) (t : Text) → any (λ p. bytes_of p == t) ps ≡ true → canonical_key t ≡ true
  canonical-put_peers [] t h = cc
  canonical-put_peers (p ∷ ps) t h = ground (
    arith,
    canonical-put_peers ps t,
    list_beq_iff (bytes_of p) t,
    peer_keys.parse-bytes (peer_keys.key_from_peer p),
  )

  unfoldable pub cache_of : DialogDb B P → Option B → P → List Peer → DialogCache Key Peer B P
  cache_of db b s ps = record {
    store = record db { peers = s; dialogs = b };
    peers = put_all bucket peer_keys storage [] ps;
  }

  pub replaced-IsConsistent :
      (ctx : ℕ → Bool) (db : DialogDb B P) (ps : List Peer)
      → (add_peers bucket peer_keys storage ctx 0 db.peers ps).1 ≡ none
      → IsConsistent (
          cache_of db
            (some (put_peers bucket peer_keys storage bucket.empty ps))
            (add_peers bucket peer_keys storage ctx 0 db.peers ps).0
            ps)
  unfolding cache_of Map.get
  replaced-IsConsistent ctx db ps h = record {
    listed = λ k. ground (
      arith,
      keys-put_peers bucket.empty ps (peer_keys.bytes k),
      bucket.keys-empty,
      any-last_with ps k,
      get-put_all [] ps k,
    );
    found = λ k q. ground (arith, find-add_peers ctx 0 db.peers ps k h, get-put_all [] ps k);
    canonical = λ t q.
        ground
          (arith, keys-put_peers bucket.empty ps t, bucket.keys-empty, canonical-put_peers ps t);
  }

  abbrev pub with_entry : DialogCache Key Peer B P → Peer → DialogCache Key Peer B P
  with_entry c p = record {
    store = record c.store {
      peers = (storage.add c.store.peers p).0;
      dialogs = some (bucket.put (or_else c.store.dialogs bucket.empty) (bytes_of p));
    };
    peers = Map.put c.peers (peer_keys.key_from_peer p) p;
  }

  keys-or_else :
      (d : Option B) (t : Text)
      → lists_key (bucket.keys (or_else d bucket.empty)) t ≡ lists_key (keys_of bucket d) t
  keys-or_else none t = rw bucket.keys-empty refl
  keys-or_else (some b) t = refl

  pub upserted-IsConsistent :
      (c : DialogCache Key Peer B P) (p : Peer)
      → (storage.add c.store.peers p).1 ≡ true
      → IsConsistent c
      → IsConsistent (with_entry c p)
  upserted-IsConsistent c p h v = record {
    listed = λ k. ground (
      arith,
      v.listed k,
      bucket.keys-put (or_else c.store.dialogs bucket.empty) (bytes_of p) (peer_keys.bytes k),
      keys-or_else c.store.dialogs (peer_keys.bytes k),
      bytes_beq (peer_keys.key_from_peer p) k,
      get-put c.peers (peer_keys.key_from_peer p) k p,
    );
    found = λ k q. ground (
      arith,
      v.found k,
      storage.find-add c.store.peers p k h,
      get-put c.peers (peer_keys.key_from_peer p) k p,
    );
    canonical = λ t q. ground (
      arith,
      v.canonical t,
      bucket.keys-put (or_else c.store.dialogs bucket.empty) (bytes_of p) t,
      keys-or_else c.store.dialogs t,
      list_beq_iff (bytes_of p) t,
      peer_keys.parse-bytes (peer_keys.key_from_peer p),
    );
  }

  abbrev pub without_entry : DialogCache Key Peer B P → Key → DialogCache Key Peer B P
  without_entry c k = record {
    store = record c.store { dialogs = delete_key bucket c.store.dialogs (peer_keys.bytes k) };
    peers = Map.delete c.peers k;
  }

  keys-delete_key :
      (d : Option B) (k t : Text)
      → lists_key (keys_of bucket (delete_key bucket d k)) t
        ≡ (not (k == t) && lists_key (keys_of bucket d) t)
  keys-delete_key none k t = ground arith
  keys-delete_key (some b) k t = bucket.keys-delete b k t

  pub removed-IsConsistent :
      (c : DialogCache Key Peer B P) (k : Key) → IsConsistent c → IsConsistent (without_entry c k)
  removed-IsConsistent c k v = record {
    listed = λ j. ground (
      arith,
      v.listed j,
      keys-delete_key c.store.dialogs (peer_keys.bytes k) (peer_keys.bytes j),
      bytes_beq k j,
      get-delete c.peers k j,
    );
    found = λ j q. ground (arith, v.found j, get-delete c.peers k j);
    canonical =
        λ t q. ground (arith, v.canonical t, keys-delete_key c.store.dialogs (peer_keys.bytes k) t);
  }
