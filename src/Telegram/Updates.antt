-- ===== src/Telegram/Updates.antt =====
-- pkg/telegram/dialog_updates.go: what the updates of Telegram do to the cache of dialogs. The entities
-- of an update, and gotd's conversions of them to peers, are parameters. A failed write is logged and
-- changes nothing here but what the cache's operation changes.
pub mod Known
use tgdownloader.Prelude.{
  ℕ, ◌≡◌, ◌↔◌, Bool, true, false, ◌&&◌, Option, none, some, List, [], ◌∷◌, Text, ◌==◌, Eq, nat_eq,
  nat_beq_iff, arith, if◌then◌else◌,
}
use tgdownloader.Prelude.Map
use tgdownloader.Telegram.Store.{Bucket, PeerKeys, PeerStorage}
use tgdownloader.Telegram.Cache.{DialogCache, upsert_dialog, dialog}
use tgdownloader.Telegram.Peers.{
  PeerKind, user, chat, channel, kind_beq, User, Username, DialogPeer,
}

-- `storage.PeerKey`.
abbrev pub PeerKey : Type 0
PeerKey = PeerKind × ℕ

abbrev pub peer_key_beq : PeerKey → PeerKey → Bool
peer_key_beq (k, i) (l, j) = kind_beq k l && i == j

pub peer_key_beq_iff : (a b : PeerKey) → (peer_key_beq a b ≡ true) ↔ (a ≡ b)
peer_key_beq_iff (k, i) (l, j) = ground (arith, nat_beq_iff i j)

instance abbrev pub peer_key_eq : Eq PeerKey
peer_key_eq = record { beq = peer_key_beq; beq_iff = peer_key_beq_iff }

-- `tg.PeerClass`.
pub data PeerRef : Type 0 where
  peer_user peer_chat peer_channel : ℕ → PeerRef
  other_peer : PeerRef

-- `tg.Entities`, and `FromUser` and `FromChat`.
pub record Entities (U C : Type 0) : Type 0 where
  pub users : ℕ → Option U
  pub chats : ℕ → Option C
  pub channels : ℕ → Option C
  pub from_user : U → Option DialogPeer
  pub from_chat : C → Option DialogPeer

-- A message is empty or has the peer that it belongs to.
pub data DialogUpdate : Type 0 where
  new_message new_channel_message : Option PeerRef → DialogUpdate
  user_changed chat_changed channel_changed : ℕ → DialogUpdate
  user_name_changed : ℕ → Text → Text → List Username → DialogUpdate

abbrev bind {ℓ κ} : {A : Type ℓ} {B : Type κ} → Option A → (A → Option B) → Option B
bind none f = none
bind (some a) f = f a

-- The loop of `activeUsername`, and what it falls back to.
abbrev active_or : Text → List Username → Text
active_or first [] = first
active_or first (u ∷ us) = if u.active then u.username else active_or first us

unfoldable pub active_username : List Username → Text
active_username [] = []
active_username (u ∷ us) = active_or u.username (u ∷ us)

abbrev pub renamed : DialogPeer → User → Text → Text → List Username → DialogPeer
renamed p u first last usernames = record p {
  user_of = some (record u {
    first_name = first;
    last_name = last;
    usernames = usernames;
    username = active_username usernames;
  });
}

module _ {U C : Type 0} (entities : Entities U C) where
  unfoldable pub dialog_peer_from_update : PeerRef → Option DialogPeer
  dialog_peer_from_update (peer_user id) = bind (entities.users id) entities.from_user
  dialog_peer_from_update (peer_chat id) = bind (entities.chats id) entities.from_chat
  dialog_peer_from_update (peer_channel id) = bind (entities.channels id) entities.from_chat
  dialog_peer_from_update other_peer = none

abbrev pub UpdatedCache : Type 0 → Type 0 → Type 0
UpdatedCache B P = DialogCache PeerKey DialogPeer B P

module _ {B P : Type 0} (bucket : Bucket B) (peer_keys : PeerKeys PeerKey DialogPeer)
    (storage : PeerStorage peer_keys P) where
  unfoldable pub upsert_found : Bool → UpdatedCache B P → Option DialogPeer → UpdatedCache B P
  upsert_found commits c none = c
  upsert_found commits c (some p) = (upsert_dialog bucket peer_keys storage commits c p).0

  -- `upsertMessagePeer`.
  unfoldable pub upsert_message_peer :
      {U C : Type 0} → Bool → Entities U C → UpdatedCache B P → Option PeerRef → UpdatedCache B P
  unfolding upsert_found
  upsert_message_peer commits entities c none = c
  upsert_message_peer commits entities c (some ref) =
      upsert_found commits c (dialog_peer_from_update entities ref)

  -- The dialog is refreshed where the cache has it.
  unfoldable pub refresh_found : Bool → UpdatedCache B P → Option DialogPeer → UpdatedCache B P
  unfolding upsert_found
  refresh_found commits c none = c
  refresh_found commits c (some p) =
      if Map.has c.peers (peer_keys.key_from_peer p) then upsert_found commits c (some p) else c

  -- `refreshKnown`.
  unfoldable pub refresh_known :
      {U C : Type 0} → Bool → Entities U C → UpdatedCache B P → PeerRef → UpdatedCache B P
  unfolding refresh_found
  refresh_known commits entities c ref =
      refresh_found commits c (dialog_peer_from_update entities ref)

  abbrev pub rename_user :
      DialogPeer → Option User → Text → Text → List Username → Option DialogPeer
  rename_user p none first last usernames = none
  rename_user p (some u) first last usernames = some (renamed p u first last usernames)

  abbrev pub rename_cached : Option DialogPeer → Text → Text → List Username → Option DialogPeer
  rename_cached none first last usernames = none
  rename_cached (some p) first last usernames = rename_user p p.user_of first last usernames

  -- The handlers that `registerDialogCacheHandlers` registers.
  unfoldable pub handle_update :
      {U C : Type 0} → Bool → Entities U C → UpdatedCache B P → DialogUpdate → UpdatedCache B P
  unfolding upsert_message_peer refresh_known upsert_found
  handle_update commits entities c (new_message m) = upsert_message_peer commits entities c m
  handle_update commits entities c (new_channel_message m) =
      upsert_message_peer commits entities c m
  handle_update commits entities c (user_changed id) =
      refresh_known commits entities c (peer_user id)
  handle_update commits entities c (chat_changed id) =
      refresh_known commits entities c (peer_chat id)
  handle_update commits entities c (channel_changed id) =
      refresh_known commits entities c (peer_channel id)
  handle_update commits entities c (user_name_changed id first last usernames) =
      upsert_found commits c
        (rename_cached (dialog bucket peer_keys storage c (user, id)) first last usernames)
