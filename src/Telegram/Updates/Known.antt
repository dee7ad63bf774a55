-- ===== src/Telegram/Updates/Known.antt =====
-- Which dialogs the cache has after an update.
use tgdownloader.Prelude.{
  ◌≡◌, refl, sym, ap, ◌∙◌, Bool, true, false, ◌&&◌, ◌||◌, Option, none, some, List, Text, ◌==◌,
  arith, Bool-cases, inl, inr,
}
use tgdownloader.Prelude.Map
use tgdownloader.Prelude.Map.{get-put}
use tgdownloader.Telegram.Store.{Bucket, PeerKeys, PeerStorage, upsert}
use tgdownloader.Telegram.Cache.{upsert_dialog, dialog}
use tgdownloader.Telegram.Cache.Consistent.{IsConsistent}
use tgdownloader.Telegram.Peers.{user, DialogPeer, Username, User}
use tgdownloader.Telegram.Updates.{
  PeerKey, peer_key_beq_iff, peer_key_eq, PeerRef, peer_user, peer_chat, peer_channel, Entities,
  DialogUpdate, new_message, new_channel_message, user_changed, chat_changed, channel_changed,
  user_name_changed, dialog_peer_from_update, renamed, UpdatedCache, upsert_found,
  upsert_message_peer, refresh_found, refresh_known, rename_cached, rename_user, handle_update,
}

module _ {B P : Type 0} (bucket : Bucket B) (peer_keys : PeerKeys PeerKey DialogPeer)
    (storage : PeerStorage peer_keys P) where
  -- The peer is stored under the key.
  abbrev stores : Bool → UpdatedCache B P → Option DialogPeer → PeerKey → Bool
  stores commits c none k = false
  stores commits c (some p) k =
      commits && (storage.add c.store.peers p).1 && (peer_keys.key_from_peer p == k)

  abbrev message_peer : {U C : Type 0} → Entities U C → Option PeerRef → Option DialogPeer
  message_peer entities none = none
  message_peer entities (some ref) = dialog_peer_from_update entities ref

  -- The update is a message, and its peer is stored under the key.
  abbrev pub message_adds :
      {U C : Type 0} → Bool → Entities U C → UpdatedCache B P → DialogUpdate → PeerKey → Bool
  message_adds commits entities c (new_message m) k = stores commits c (message_peer entities m) k
  message_adds commits entities c (new_channel_message m) k =
      stores commits c (message_peer entities m) k
  message_adds commits entities c _ k = false

  upsert_found-keys :
      (commits : Bool) (c : UpdatedCache B P) (o : Option DialogPeer) (k : PeerKey)
      → Map.has (upsert_found bucket peer_keys storage commits c o).peers k
        ≡ (Map.has c.peers k || stores commits c o k)
  unfolding upsert_found upsert_dialog upsert
  upsert_found-keys commits c none k = ground arith
  upsert_found-keys commits c (some p) k =
      ground (arith, get-put c.peers (peer_keys.key_from_peer p) k p)

  known_peer :
      (commits : Bool) (c : UpdatedCache B P) (p : DialogPeer) (k : PeerKey)
      → Map.has c.peers (peer_keys.key_from_peer p) ≡ true
      → Map.has (upsert_found bucket peer_keys storage commits c (some p)).peers k
        ≡ Map.has c.peers k
  known_peer commits c p k h = ground (
    arith,
    h,
    upsert_found-keys commits c (some p) k,
    peer_key_beq_iff (peer_keys.key_from_peer p) k,
  )

  refresh_found-keys :
      (commits : Bool) (c : UpdatedCache B P) (o : Option DialogPeer) (k : PeerKey)
      → Map.has (refresh_found bucket peer_keys storage commits c o).peers k ≡ Map.has c.peers k
  unfolding refresh_found
  refresh_found-keys commits c none k = refl
  refresh_found-keys commits c (some p) k =
      elim (Bool-cases (Map.has c.peers (peer_keys.key_from_peer p))) [
        | inl q ↦ rw q (known_peer commits c p k q)
        | inr q ↦ rw q refl
      ]

  -- `storage.KeyFromPeer` reads the key of the peer.
  module _ (keyed : (p : DialogPeer) → peer_keys.key_from_peer p ≡ (p.kind, p.key_id)) where
    key-renamed :
        (c : UpdatedCache B P) (j : PeerKey) (p : DialogPeer) (u : User) (first last : Text)
        (usernames : List Username)
        → IsConsistent bucket peer_keys storage c
        → Map.get c.peers j ≡ some p
        → Map.has c.peers (peer_keys.key_from_peer (renamed p u first last usernames)) ≡ true
    key-renamed c j p u first last usernames v q =
        let there : Map.has c.peers j ≡ true = ground (arith, q) in
        let found = storage.key-find c.store.peers j p (v.found j there ∙ q) in
        ap (Map.has c.peers) (keyed (renamed p u first last usernames) ∙ sym (keyed p) ∙ found)
        ∙ there

    rename_user-keys :
        (commits : Bool) (c : UpdatedCache B P) (j k : PeerKey) (p : DialogPeer) (w : Option User)
        (first last : Text) (usernames : List Username)
        → IsConsistent bucket peer_keys storage c
        → Map.get c.peers j ≡ some p
        → Map.has
            (upsert_found bucket peer_keys storage commits c
              (rename_user bucket peer_keys storage p w first last usernames)).peers
            k
          ≡ Map.has c.peers k
    rename_user-keys commits c j k p none first last usernames v q = unfold upsert_found in refl
    rename_user-keys commits c j k p (some u) first last usernames v q =
        known_peer commits c (renamed p u first last usernames) k
          (key-renamed c j p u first last usernames v q)

    rename_cached-keys :
        (commits : Bool) (c : UpdatedCache B P) (j k : PeerKey) (o : Option DialogPeer)
        (first last : Text) (usernames : List Username)
        → IsConsistent bucket peer_keys storage c
        → Map.get c.peers j ≡ o
        → Map.has
            (upsert_found bucket peer_keys storage commits c
              (rename_cached bucket peer_keys storage o first last usernames)).peers
            k
          ≡ Map.has c.peers k
    rename_cached-keys commits c j k none first last usernames v q = unfold upsert_found in refl
    rename_cached-keys commits c j k (some p) first last usernames v q =
        rename_user-keys commits c j k p p.user_of first last usernames v q

    message-keys :
        {U C : Type 0} (commits : Bool) (entities : Entities U C) (c : UpdatedCache B P)
        (m : Option PeerRef) (k : PeerKey)
        → Map.has (upsert_message_peer bucket peer_keys storage commits entities c m).peers k
          ≡ (Map.has c.peers k || stores commits c (message_peer entities m) k)
    unfolding upsert_message_peer
    message-keys commits entities c none k = ground arith
    message-keys commits entities c (some ref) k =
        upsert_found-keys commits c (dialog_peer_from_update entities ref) k

    refresh-keys :
        {U C : Type 0} (commits : Bool) (entities : Entities U C) (c : UpdatedCache B P)
        (ref : PeerRef) (k : PeerKey)
        → Map.has (refresh_known bucket peer_keys storage commits entities c ref).peers k
          ≡ (Map.has c.peers k || false)
    unfolding refresh_known
    refresh-keys commits entities c ref k =
        ground (arith, refresh_found-keys commits c (dialog_peer_from_update entities ref) k)

    -- Where the key of a peer is its kind and id: after an update, whether its write succeeds or fails,
    -- a cache that agreed with its store has the dialogs that it had, and besides them only the peer of
    -- a message, where that was stored. No update removes a dialog, and a change of a user, a chat, a
    -- channel or a name adds none.
    pub handle_update-keys :
        {U C : Type 0} (commits : Bool) (entities : Entities U C) (c : UpdatedCache B P)
        (update : DialogUpdate) (k : PeerKey)
        → IsConsistent bucket peer_keys storage c
        → Map.has (handle_update bucket peer_keys storage commits entities c update).peers k
          ≡ (Map.has c.peers k || message_adds commits entities c update k)
    unfolding handle_update dialog
    handle_update-keys commits entities c (new_message m) k v = message-keys commits entities c m k
    handle_update-keys commits entities c (new_channel_message m) k v =
        message-keys commits entities c m k
    handle_update-keys commits entities c (user_changed id) k v =
        refresh-keys commits entities c (peer_user id) k
    handle_update-keys commits entities c (chat_changed id) k v =
        refresh-keys commits entities c (peer_chat id) k
    handle_update-keys commits entities c (channel_changed id) k v =
        refresh-keys commits entities c (peer_channel id) k
    handle_update-keys commits entities c (user_name_changed id first last usernames) k v = ground (
      arith,
      rename_cached-keys commits c (user, id) k (Map.get c.peers (user, id)) first last usernames v
          refl,
    )
