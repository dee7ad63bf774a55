-- ===== src/Telegram/Cache/Refines.antt =====
-- What the cache promises: it is a finite map from keys to peers, and reopening the database gives it
-- again. The map is a function here, which forgets the order of the entries.
use tgdownloader.Prelude.{
  ◌≡◌, refl, Bool, true, false, Option, none, some, [], ◌==◌, Eq, nat_eq, list_eq, if◌then◌else◌,
  arith,
}
use mathlib.Core.Path.{fun_ext}
use tgdownloader.Prelude.Map
use tgdownloader.Prelude.Map.{Map, get-put, get-delete}
use tgdownloader.Telegram.Store.{
  StoreError, Bucket, PeerKeys, PeerStorage, replace, upsert, remove, add_peers, after_peers,
}
use tgdownloader.Telegram.Cache.{
  DialogCache, replace_dialogs, upsert_dialog, remove_dialog, dialog, stored, CacheRequest,
  replace_all, upsert_one, remove_one, run,
}
use tgdownloader.Telegram.Cache.Consistent.{
  last_with, cache_of, replaced-IsConsistent, upserted-IsConsistent, removed-IsConsistent,
  get-put_all, IsConsistent,
}

module _ {Key Peer B P : Type 0} ⦃e : Eq Key⦄ (bucket : Bucket B) (peer_keys : PeerKeys Key Peer)
    (storage : PeerStorage peer_keys P) where
  -- The specification: a map from keys to peers as a function.
  abbrev pub spec_run : (Key → Option Peer) → CacheRequest Key Peer → Key → Option Peer
  spec_run v (replace_all ctx commits ps) j = last_with bucket peer_keys storage ps j
  spec_run v (upsert_one commits p) j = if peer_keys.key_from_peer p == j then some p else v j
  spec_run v (remove_one commits k) j = if k == j then none else v j

  -- A request that succeeds does to the map what it says and leaves memory and store in agreement;
  -- one that fails changes neither the map nor the index.
  pub Follows :
      DialogCache Key Peer B P
      → CacheRequest Key Peer
      → DialogCache Key Peer B P × Option StoreError
      → Type 0
  Follows c r (c', none) =
      IsConsistent bucket peer_keys storage c'
      × (dialog bucket peer_keys storage c' ≡ spec_run (dialog bucket peer_keys storage c) r)
  Follows c r (c', some x) =
      (dialog bucket peer_keys storage c' ≡ dialog bucket peer_keys storage c)
      × (c'.store.dialogs ≡ c.store.dialogs)

  -- The store is written first, and the memory only where that succeeds.
  stored-Follows :
      (c : DialogCache Key Peer B P) (r : CacheRequest Key Peer) (memory : Map Key Peer)
      (commits : Bool) (dialogs : Option B) (s : P) (x : Option StoreError)
      → (x ≡ none
          → IsConsistent bucket peer_keys storage
              (record { store = record c.store { peers = s; dialogs = dialogs }; peers = memory }))
      → ((k : Key) → Map.get memory k ≡ spec_run (dialog bucket peer_keys storage c) r k)
      → Follows c r (
          stored bucket peer_keys storage c memory
            (after_peers bucket peer_keys storage commits c.store dialogs (s, x)))
  unfolding Follows dialog
  stored-Follows c r memory commits dialogs s (some x) v same = (refl, refl)
  stored-Follows c r memory true dialogs s none v same = (v refl, fun_ext same)
  stored-Follows c r memory false dialogs s none v same = (refl, refl)

  removed-Follows :
      (c : DialogCache Key Peer B P) (commits : Bool) (k : Key)
      → IsConsistent bucket peer_keys storage c
      → Follows c (remove_one commits k) (remove_dialog bucket peer_keys storage commits c k)
  unfolding Follows dialog remove_dialog remove
  removed-Follows c false k v = (refl, refl)
  removed-Follows c true k v =
      (removed-IsConsistent bucket peer_keys storage c k v, fun_ext (λ j. get-delete c.peers k j))

  -- Every request to a cache that agrees with its store does what the specification says: with no
  -- error, each key then has the peer that the specification gives it, and memory and store agree
  -- again; with an error, whether of the context, the peer storage or the transaction, each key has
  -- the peer that it had, and the index is unchanged.
  pub run-Follows :
      (c : DialogCache Key Peer B P) (r : CacheRequest Key Peer)
      → IsConsistent bucket peer_keys storage c
      → Follows c r (run bucket peer_keys storage c r)
  unfolding run replace_dialogs upsert_dialog replace upsert cache_of dialog Map.get
  run-Follows c (replace_all ctx commits ps) v =
      let adds = add_peers bucket peer_keys storage ctx 0 c.store.peers ps in
      stored-Follows c (replace_all ctx commits ps) _ commits _ adds.0 adds.1
        (λ q. replaced-IsConsistent bucket peer_keys storage ctx c.store ps q)
        (λ k. ground (arith, get-put_all bucket peer_keys storage [] ps k))
  run-Follows c (upsert_one commits p) v =
      stored-Follows c (upsert_one commits p) _ commits _ (storage.add c.store.peers p).0 _
        (λ q. upserted-IsConsistent bucket peer_keys storage c p (ground (arith, q)) v)
        (λ k. get-put c.peers (peer_keys.key_from_peer p) k p)
  run-Follows c (remove_one commits k) v = removed-Follows c commits k v
