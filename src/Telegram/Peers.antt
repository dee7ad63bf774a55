-- ===== src/Telegram/Peers.antt =====
-- pkg/telegram/cache.go: the peers of the dialogs, their names, the filters on them, and the list of
-- peers that a client asks for. Of gotd's users, chats and channels there are the fields that the code
-- reads; gotd's peer ids are a parameter, and so are Unicode's tables of lower case and of case folding.
pub mod Names
pub mod Listed
use tgdownloader.Prelude.{
  is_empty, ℕ, ◌≡◌, Bool, true, false, ◌&&◌, ◌||◌, not, Option, none, some, List, [], ◌∷◌, ◌++◌,
  map, Text, ◌==◌, Eq, nat_eq, list_eq, list_beq_iff, codes, any, if◌then◌else◌, ltb, list_less,
  Order, list_order, nat_order, sort_by, arith, ltb_irrefl, ltb_trans, ltb_total, list_less_irrefl,
  list_less_trans, list_less_total, nat_beq_iff,
}
use tgdownloader.Prelude.Decimal.{decimal}
use tgdownloader.Prelude.Map.{Map}
use tgdownloader.Renderer.Sanitize.{trim_space}
use tgdownloader.Cmd.History.Sensitive.{contains}
use tgdownloader.Telegram.Store.{Result, failure, success, context_failed}

pub data PeerKind : Type 0 where
  user chat channel : PeerKind

pub record Username : Type 0 where
  pub username : Text
  pub active : Bool

pub record User : Type 0 where
  pub id : ℕ
  pub first_name : Text
  pub last_name : Text
  pub username : Text
  pub usernames : List Username
  pub deleted : Bool

pub record Channel : Type 0 where
  pub title : Text
  pub username : Text

-- Of a chat, the title is read alone.
pub record DialogPeer : Type 0 where
  pub kind : PeerKind
  pub key_id : ℕ
  pub user_of : Option User
  pub chat_title : Option Text
  pub channel_of : Option Channel

user_name : User → Text
user_name u =
    let name = trim_space (u.first_name ++ codes " " ++ u.last_name) in
    if not (is_empty name)
    then name
    else if not (is_empty u.username)
    then u.username
    else if u.deleted
    then codes "<deleted user>"
    else codes "<user " ++ decimal u.id ++ codes ">"

-- `Name`.
unfoldable pub peer_name : DialogPeer → Text
unfolding user_name
peer_name p = elim p.user_of [
  | some u ↦ user_name u
  | none ↦ elim p.chat_title [
    | some title ↦ title
    | none ↦ elim p.channel_of [ none ↦ [] | some c ↦ c.title ]
  ]
]

-- `aliases`.
unfoldable pub aliases : DialogPeer → List Text
aliases p = peer_name p ∷ elim p.user_of [
  | some u ↦ u.username ∷ []
  | none ↦ elim p.channel_of [ none ↦ [] | some c ↦ c.username ∷ [] ]
]

module _ (fold : ℕ → ℕ) where
  -- `strings.EqualFold`.
  abbrev pub equal_fold : Text → Text → Bool
  equal_fold s t = map fold s == map fold t

  -- One round of the loop over the aliases, and the loop, with what they have collected.
  unfoldable pub add_name : List Text → Text → List Text
  add_name result raw =
      let alias = trim_space raw in
      if is_empty alias || any (λ existing. equal_fold existing alias) result
      then result
      else result ++ alias ∷ []

  unfoldable pub add_names : List Text → List Text → List Text
  unfolding add_name
  add_names result [] = result
  add_names result (raw ∷ rest) = add_names (add_name result raw) rest

  unfoldable pub search_names : DialogPeer → List Text
  unfolding add_names
  search_names p = add_names [] (aliases p)

abbrev pub kind_beq : PeerKind → PeerKind → Bool
kind_beq user user = true
kind_beq chat chat = true
kind_beq channel channel = true
kind_beq _ _ = false

mutual
  pub data DialogPeerFilter : Type 0 where
    key_kind : PeerKind → DialogPeerFilter
    name_contains : Text → DialogPeerFilter
    not_filter : DialogPeerFilter → DialogPeerFilter
    and_filters or_filters : FilterList → DialogPeerFilter

  pub data FilterList : Type 0 where
    no_filters : FilterList
    one_filter : DialogPeerFilter → FilterList → FilterList

module _ (lower : ℕ → ℕ) where
  abbrev pub to_lower : Text → Text
  to_lower t = map lower t

  unfoldable mutual
    pub filter : DialogPeerFilter → DialogPeer → Bool
    filter (key_kind k) p = kind_beq p.kind k
    filter (name_contains name) p = contains (to_lower (peer_name p)) (to_lower name)
    filter (not_filter f) p = not (filter f p)
    filter (and_filters fs) p = passes_all fs p
    filter (or_filters fs) p = passes_any fs p

    -- The loops of `and` and `or`.
    pub passes_all : FilterList → DialogPeer → Bool
    passes_all no_filters p = true
    passes_all (one_filter f fs) p = if not (filter f p) then false else passes_all fs p

    pub passes_any : FilterList → DialogPeer → Bool
    passes_any no_filters p = false
    passes_any (one_filter f fs) p = if filter f p then true else passes_any fs p

-- The comparison of `sort.Slice`: by lower-case name, then by the id.
abbrev pub listed_before : Text × ℕ → Text × ℕ → Bool
listed_before (left, i) (right, j) = if left == right then ltb i j else list_less left right

pub listed_before_irrefl : (a : Text × ℕ) → listed_before a a ≡ false
listed_before_irrefl (t, i) = ground (arith, list_less_irrefl t)

pub listed_before_trans :
    (a b c : Text × ℕ)
    → listed_before a b ≡ true
    → listed_before b c ≡ true
    → listed_before a c ≡ true
listed_before_trans (t, i) (u, j) (v, k) p q = ground (
  arith,
  p,
  q,
  list_less_trans t u v,
  list_less_trans u t u,
  list_less_irrefl u,
  list_beq_iff t u,
  list_beq_iff u v,
  list_beq_iff t v,
)

pub listed_before_total :
    (a b : Text × ℕ) → listed_before a b ≡ false → listed_before b a ≡ false → a ≡ b
listed_before_total (t, i) (u, j) p q =
    ground (arith, p, q, list_less_total t u, list_beq_iff t u, list_beq_iff u t)

instance abbrev pub listed_order : Order (Text × ℕ)
listed_order = record {
  less = listed_before;
  less_irrefl = listed_before_irrefl;
  less_trans = listed_before_trans;
  less_total = listed_before_total;
}

module _ (lower : ℕ → ℕ) (tdlib_peer_id : PeerKind → ℕ → ℕ) where
  abbrev pub listing : DialogPeer → Text × ℕ
  listing p = (to_lower lower (peer_name p), tdlib_peer_id p.kind p.key_id)

  unfoldable pub selected : FilterList → List DialogPeer → List DialogPeer
  selected fs [] = []
  selected fs (p ∷ ps) =
      let rest = selected fs ps in if passes_all lower fs p then p ∷ rest else rest

  -- `GetDialogPeers`, from the peers of the map in the order in which they are visited.
  unfoldable pub get_dialog_peers : Bool → FilterList → List DialogPeer → Result (List DialogPeer)
  unfolding selected
  get_dialog_peers canceled fs peers =
      if canceled then failure context_failed else success (sort_by listing (selected fs peers))
