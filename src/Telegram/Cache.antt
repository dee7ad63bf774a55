-- ===== src/Telegram/Cache.antt =====
-- pkg/telegram/cache.go: the cache of dialogs in memory above its store. An operation writes the
-- store first and changes the memory when that succeeds. The lock, under which every change of the
-- memory is made as a whole, is left out.
pub mod Consistent
pub mod Refines
pub mod Reopen
use tgdownloader.Prelude.{
  ℕ, ◌≡◌, Bool, true, false, not, Option, none, some, List, [], ◌∷◌, Text, ◌==◌, Eq, if◌then◌else◌,
}
use tgdownloader.Prelude.Map
use tgdownloader.Prelude.Map.{Map}
use tgdownloader.Telegram.Store.{
  StoreError, Result, failure, success, Bucket, PeerKeys, PeerStorage, DialogDb, load, replace,
  upsert, remove,
}

pub record DialogCache (Key Peer B P : Type 0) : Type 0 where
  pub store : DialogDb B P
  pub peers : Map Key Peer

-- The three changes, with what the context and the transaction do.
pub data CacheRequest (Key Peer : Type 0) : Type 0 where
  replace_all : (ℕ → Bool) → Bool → List Peer → CacheRequest Key Peer
  upsert_one : Bool → Peer → CacheRequest Key Peer
  remove_one : Bool → Key → CacheRequest Key Peer

module _ {Key Peer B P : Type 0} ⦃e : Eq Key⦄ (bucket : Bucket B) (peer_keys : PeerKeys Key Peer)
    (storage : PeerStorage peer_keys P) where
  -- `replaceMemory`: of peers with the same key, the last one stays.
  unfoldable pub put_all : Map Key Peer → List Peer → Map Key Peer
  put_all m [] = m
  put_all m (p ∷ ps) = put_all (Map.put m (peer_keys.key_from_peer p) p) ps

  unfoldable pub new_dialog_cache : (ℕ → Bool) → DialogDb B P → Result (DialogCache Key Peer B P)
  unfolding put_all
  new_dialog_cache ctx db = elim (load bucket peer_keys storage ctx db) [
    | failure x ↦ failure x
    | success ps ↦ success (record { store = db; peers = put_all [] ps })
  ]

  abbrev pub stored :
      DialogCache Key Peer B P
      → Map Key Peer
      → DialogDb B P × Option StoreError
      → DialogCache Key Peer B P × Option StoreError
  stored c memory (db, none) = (record { store = db; peers = memory }, none)
  stored c memory (db, some x) = (record c { store = db }, some x)

  unfoldable pub replace_dialogs :
      (ℕ → Bool)
      → Bool
      → DialogCache Key Peer B P
      → List Peer
      → DialogCache Key Peer B P × Option StoreError
  unfolding put_all
  replace_dialogs ctx commits c ps =
      stored c (put_all [] ps) (replace bucket peer_keys storage ctx commits c.store ps)

  unfoldable pub upsert_dialog :
      Bool → DialogCache Key Peer B P → Peer → DialogCache Key Peer B P × Option StoreError
  upsert_dialog commits c p =
      stored c (Map.put c.peers (peer_keys.key_from_peer p) p)
        (upsert bucket peer_keys storage commits c.store p)

  unfoldable pub remove_dialog :
      Bool → DialogCache Key Peer B P → Key → DialogCache Key Peer B P × Option StoreError
  remove_dialog commits c k =
      stored c (Map.delete c.peers k) (remove bucket peer_keys storage commits c.store k)

  -- What a client sees: `dialog`.
  unfoldable pub dialog : DialogCache Key Peer B P → Key → Option Peer
  dialog c k = Map.get c.peers k

  unfoldable pub run :
      DialogCache Key Peer B P
      → CacheRequest Key Peer
      → DialogCache Key Peer B P × Option StoreError
  unfolding replace_dialogs upsert_dialog remove_dialog
  run c (replace_all ctx commits ps) = replace_dialogs ctx commits c ps
  run c (upsert_one commits p) = upsert_dialog commits c p
  run c (remove_one commits k) = remove_dialog commits c k
