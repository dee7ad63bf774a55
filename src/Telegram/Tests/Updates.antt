-- ===== src/Telegram/Tests/Updates.antt =====
-- The theorem about the updates of dialogs at a concrete message.
use tgdownloader.Prelude.{
  ℕ, ◌≡◌, refl, true, ◌||◌, Option, none, some, List, [], ◌∷◌, Text, ◌==◌, nat_eq, if◌then◌else◌,
  arith,
}
use tgdownloader.Prelude.Map
use tgdownloader.Telegram.Store.{PeerKeys, PeerStorage}
use tgdownloader.Telegram.Cache.Consistent.{IsConsistent}
use tgdownloader.Telegram.Peers.{PeerKind, user, chat, channel, DialogPeer}
use tgdownloader.Telegram.Updates.{
  PeerKey, peer_key_beq_iff, peer_key_eq, peer_user, Entities, DialogUpdate, new_message,
  UpdatedCache, handle_update,
}
use tgdownloader.Telegram.Updates.Known.{message_adds, handle_update-keys}
use tgdownloader.Telegram.Tests.{key_list, ann}

abbrev kind_number : PeerKind → ℕ
kind_number user = 0
kind_number chat = 1
kind_number channel = 2

abbrev parse_key : Text → Option PeerKey
parse_key (k ∷ i ∷ []) =
    some (if k == 0 then (user, i) else if k == 1 then (chat, i) else (channel, i))
parse_key _ = none

parse_key-bytes : (k : PeerKey) → parse_key (kind_number k.0 ∷ k.1 ∷ []) ≡ some k
parse_key-bytes (user, i) = refl
parse_key-bytes (chat, i) = refl
parse_key-bytes (channel, i) = refl

abbrev peer_keys : PeerKeys PeerKey DialogPeer
peer_keys = record {
  key_from_peer = λ p. (p.kind, p.key_id);
  bytes = λ k. kind_number k.0 ∷ k.1 ∷ [];
  parse = parse_key;
  parse-bytes = parse_key-bytes;
}

abbrev find_peer : List DialogPeer → PeerKey → Option DialogPeer
find_peer [] k = none
find_peer (p ∷ s) k = if (p.kind, p.key_id) == k then some p else find_peer s k

find_peer-key :
    (s : List DialogPeer) (k : PeerKey) (p : DialogPeer)
    → find_peer s k ≡ some p
    → (p.kind, p.key_id) ≡ k
find_peer-key [] k p h = cc
find_peer-key (q ∷ s) k p h =
    ground (arith, h, find_peer-key s k p, peer_key_beq_iff (q.kind, q.key_id) k)

abbrev peer_list : PeerStorage peer_keys (List DialogPeer)
peer_list = record {
  no_peers = [];
  add = λ s p. (p ∷ s, true);
  find = find_peer;
  find-add = λ s p k h. refl;
  key-find = find_peer-key;
}

abbrev cache : UpdatedCache (List Text) (List DialogPeer)
cache = record { store = record { schema_version = none; dialogs = none; peers = [] }; peers = [] }

cache-IsConsistent : IsConsistent key_list peer_keys peer_list cache
unfolding Map.get
cache-IsConsistent = record { listed = λ k. refl; found = λ k h. cc; canonical = λ t h. cc }

abbrev entities : Entities DialogPeer DialogPeer
entities = record {
  users = λ id. if id == 7 then some ann else none;
  chats = λ id. none;
  channels = λ id. none;
  from_user = λ p. some p;
  from_chat = λ p. some p;
}

abbrev message : DialogUpdate
message = new_message (some (peer_user 7))

handle_update-keys_example :
    Map.has (handle_update key_list peer_keys peer_list true entities cache message).peers (user, 7)
    ≡ (Map.has cache.peers (user, 7)
        || message_adds key_list peer_keys peer_list true entities cache message (user, 7))
handle_update-keys_example =
    handle_update-keys key_list peer_keys peer_list (λ p. refl) true entities cache message
      (user, 7) cache-IsConsistent
