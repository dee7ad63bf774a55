-- ===== src/Telegram/Tests.antt =====
-- The theorems about pkg/telegram at concrete inputs, with lists for the database.
mod Updates
use tgdownloader.Prelude.{
  ℕ, sym, ap, ◌∙◌, ◌≡◌, refl, true, false, ◌&&◌, not, Option, none, some, List, [], ◌∷◌, Text, ◌==◌,
  nat_eq, list_eq, list_beq_iff, nat_beq_iff, if◌then◌else◌, arith, codes, all,
}
use mathlib.Core.List.{Permᴰ, Memᴰ}
use mathlib.Core.List.Memᴰ
use tgdownloader.Prelude.Map
use tgdownloader.Telegram.Store.{
  Bucket, PeerKeys, PeerStorage, lists_key, encoded_version, is_current, little_endian,
}
use tgdownloader.Telegram.Cache.{DialogCache, CacheRequest, replace_all, run}
use tgdownloader.Telegram.Cache.Consistent.{IsConsistent}
use tgdownloader.Telegram.Cache.Refines.{Follows, run-Follows}
use tgdownloader.Telegram.Cache.Reopen.{never, Reopened, new_dialog_cache-Reopened}
use tgdownloader.Telegram.AccessHash.{
  ValueBucket, set_channel_access_hash, get_channel_access_hash,
  get_channel_access_hash-set_channel_access_hash,
}
use tgdownloader.Telegram.Peers.{
  PeerKind, user, chat, DialogPeer, FilterList, no_filters, one_filter, not_filter, name_contains,
  aliases, search_names, get_dialog_peers,
}
use tgdownloader.Telegram.Peers.Listed.{
  get_dialog_peers-permuted, IsListed, get_dialog_peers-IsListed,
}
use tgdownloader.Telegram.Peers.Names.{search_names-distinct, has_name, distinct_names, names_all}

-- A bucket as the list of its keys.
abbrev pub without : List Text → Text → List Text
without [] k = []
without (j ∷ b) k = let rest = without b k in if j == k then rest else j ∷ rest

pub lists_key-without :
    (b : List Text) (k j : Text) → lists_key (without b k) j ≡ (not (k == j) && lists_key b j)
lists_key-without [] k j = ground arith
lists_key-without (x ∷ b) k j =
    ground (arith, lists_key-without b k j, list_beq_iff x k, list_beq_iff k j, list_beq_iff x j)

abbrev pub key_list : Bucket (List Text)
key_list = record {
  empty = [];
  put = λ b k. k ∷ b;
  delete = without;
  keys = λ b. b;
  keys-empty = refl;
  keys-put = λ b k j. refl;
  keys-delete = lists_key-without;
}

abbrev parse_one : Text → Option ℕ
parse_one (k ∷ []) = some k
parse_one _ = none

-- A peer is its id and its name.
abbrev id_keys : PeerKeys ℕ (ℕ × Text)
id_keys = record {
  key_from_peer = λ p. p.0;
  bytes = λ k. k ∷ [];
  parse = parse_one;
  parse-bytes = λ k. refl;
}

abbrev find_in : List (ℕ × Text) → ℕ → Option (ℕ × Text)
find_in [] k = none
find_in (p ∷ s) k = if p.0 == k then some p else find_in s k

find_in-key : (s : List (ℕ × Text)) (k : ℕ) (p : ℕ × Text) → find_in s k ≡ some p → p.0 ≡ k
find_in-key [] k p h = cc
find_in-key (q ∷ s) k p h = ground (arith, h, find_in-key s k p, nat_beq_iff q.0 k)

abbrev peer_list : PeerStorage id_keys (List (ℕ × Text))
peer_list = record {
  no_peers = [];
  add = λ s p. (p ∷ s, true);
  find = find_in;
  find-add = λ s p k h. refl;
  key-find = find_in-key;
}

abbrev TestCache : Type 0
TestCache = DialogCache ℕ (ℕ × Text) (List Text) (List (ℕ × Text))

abbrev empty_cache : TestCache
empty_cache = record {
  store = record { schema_version = none; dialogs = none; peers = [] };
  peers = [];
}

empty_cache-IsConsistent : IsConsistent key_list id_keys peer_list empty_cache
unfolding Map.get
empty_cache-IsConsistent = record { listed = λ k. refl; found = λ k h. cc; canonical = λ t h. cc }

abbrev two_peers : CacheRequest ℕ (ℕ × Text)
two_peers = replace_all never true ((7, codes "Ann") ∷ (9, codes "Bob") ∷ [])

run-Follows_example :
    Follows key_list id_keys peer_list empty_cache two_peers
      (run key_list id_keys peer_list empty_cache two_peers)
run-Follows_example =
    run-Follows key_list id_keys peer_list empty_cache two_peers empty_cache-IsConsistent

abbrev full_cache : TestCache
full_cache = record {
  store = record {
    schema_version = some encoded_version;
    dialogs = some ((7 ∷ []) ∷ []);
    peers = (7, codes "Ann") ∷ [];
  };
  peers = (7, (7, codes "Ann")) ∷ [];
}

full_cache-IsConsistent : IsConsistent key_list id_keys peer_list full_cache
unfolding Map.get
full_cache-IsConsistent = record {
  listed = λ k. ground arith;
  found = λ k h. ground (arith, h);
  canonical = λ t h. ground (arith, h, list_beq_iff (7 ∷ []) t);
}

new_dialog_cache-Reopened_example : Reopened key_list id_keys peer_list full_cache
unfolding is_current little_endian
new_dialog_cache-Reopened_example =
    new_dialog_cache-Reopened key_list id_keys peer_list full_cache refl full_cache-IsConsistent

get-nothing : (k : Text) → Map.get {K = Text} {V = Text} [] k ≡ none
unfolding Map.get
get-nothing k = refl

-- A bucket with values as an association list.
abbrev value_list : ValueBucket (List (Text × Text))
value_list = record {
  no_values = [];
  put = Map.put;
  get = Map.get;
  get-no_values = get-nothing;
  get-put = Map.get-put;
}

get_channel_access_hash-set_channel_access_hash_example :
    get_channel_access_hash value_list (set_channel_access_hash value_list true none 5 300 77) 5 300
    ≡ some 77
get_channel_access_hash-set_channel_access_hash_example =
    get_channel_access_hash-set_channel_access_hash value_list true none 5 300 77 5 300
      (omega arith) (omega arith) (omega arith) (omega arith) (omega arith)

abbrev pub ann : DialogPeer
ann = record {
  kind = user;
  key_id = 7;
  user_of = some (record {
    id = 7;
    first_name = codes "Ann";
    last_name = [];
    username = codes "ann";
    usernames = [];
    deleted = false;
  });
  chat_title = none;
  channel_of = none;
}

abbrev club : DialogPeer
club = record {
  kind = chat;
  key_id = 3;
  user_of = none;
  chat_title = some (codes "Club");
  channel_of = none;
}

abbrev same_rune : ℕ → ℕ
same_rune r = r

abbrev id_of : PeerKind → ℕ → ℕ
id_of k id = id

abbrev no_clubs : FilterList
no_clubs = one_filter (not_filter (name_contains (codes "ubs"))) no_filters

-- Two peers of the map with one id are one.
one_id :
    (p q : DialogPeer)
    → Memᴰ p (club ∷ ann ∷ [])
    → Memᴰ q (club ∷ ann ∷ [])
    → id_of p.kind p.key_id ≡ id_of q.kind q.key_id
    → p ≡ q
one_id p q (Memᴰ.head e) (Memᴰ.head f) h = e ∙ sym f
one_id p q (Memᴰ.tail (Memᴰ.head e)) (Memᴰ.tail (Memᴰ.head f)) h = e ∙ sym f
one_id p q (Memᴰ.head e) (Memᴰ.tail (Memᴰ.head f)) h =
    absurd
      (omega (arith, h, ap (λ (x : DialogPeer). x.key_id) e, ap (λ (x : DialogPeer). x.key_id) f))
one_id p q (Memᴰ.tail (Memᴰ.head e)) (Memᴰ.head f) h =
    absurd
      (omega (arith, h, ap (λ (x : DialogPeer). x.key_id) e, ap (λ (x : DialogPeer). x.key_id) f))
one_id p q (Memᴰ.tail (Memᴰ.tail m)) n h = elim m [ ]
one_id p q m (Memᴰ.tail (Memᴰ.tail n)) h = elim n [ ]

get_dialog_peers-permuted_example :
    get_dialog_peers same_rune id_of false no_clubs (club ∷ ann ∷ [])
    ≡ get_dialog_peers same_rune id_of false no_clubs (ann ∷ club ∷ [])
get_dialog_peers-permuted_example =
    get_dialog_peers-permuted same_rune id_of false no_clubs one_id
      (Permᴰ.swap {a = club} {b = ann} {l = []} refl refl)
