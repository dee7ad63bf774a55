-- ===== src/Telegram/Peers/Listed.antt =====
-- What a client gets from the cache: the peers that pass the filters, in an order that does not depend
-- on how the map is visited.
use tgdownloader.Prelude.{
  ℕ, ◌≡◌, refl, Bool, true, false, List, [], ◌∷◌, map, Text, if◌then◌else◌, sort_by, ap,
}
use mathlib.Core.List.{Permᴰ}
use mathlib.Core.List.Permᴰ
use mathlib.Core.List.{Memᴰ}
use tgdownloader.Prelude.Sorting.Permuted.{mem-permuted, map-sort_by-permuted}
use tgdownloader.Prelude.Sorting.Sorted.{sorted, sort_by-sorted, perm-sort_by}
use tgdownloader.Telegram.Store.{success}
use tgdownloader.Telegram.Peers.{
  PeerKind, DialogPeer, FilterList, passes_all, listing, selected, get_dialog_peers, listed_order,
}

-- Lists that look the same are the same where what looks the same is.
same_list {ℓ κ} :
    {A : Type ℓ} {B : Type κ} (f : A → B) (xs ys : List A)
    → ((x y : A) → Memᴰ x xs → Memᴰ y ys → f x ≡ f y → x ≡ y)
    → map f xs ≡ map f ys
    → xs ≡ ys
same_list f [] [] h e = refl
same_list f [] (y ∷ ys) h e = cc
same_list f (x ∷ xs) [] h e = cc
same_list f (x ∷ xs) (y ∷ ys) h e =
    let here : x ≡ y = h x y (Memᴰ.head refl) (Memᴰ.head refl) (cc) in
    let rest : xs ≡ ys =
      same_list f xs ys (λ p q m n k. h p q (Memᴰ.tail m) (Memᴰ.tail n) k) (cc) in
    cc

module _ (lower : ℕ → ℕ) (tdlib_peer_id : PeerKind → ℕ → ℕ) where
  kept :
      {p q : DialogPeer} {ps qs : List DialogPeer} (b c : Bool)
      → p ≡ q
      → b ≡ c
      → Permᴰ ps qs
      → Permᴰ (if b then p ∷ ps else ps) (if c then q ∷ qs else qs)
  kept true true e f r = Permᴰ.cons e r
  kept false false e f r = r
  kept true false e f r = cc
  kept false true e f r = cc

  swapped :
      (p q : DialogPeer) (ps : List DialogPeer) (b c : Bool)
      → Permᴰ
          (if b then p ∷ (if c then q ∷ ps else ps) else (if c then q ∷ ps else ps))
          (if c then q ∷ (if b then p ∷ ps else ps) else (if b then p ∷ ps else ps))
  swapped p q ps true true = Permᴰ.swap refl refl
  swapped p q ps true false = Permᴰ.refl _
  swapped p q ps false true = Permᴰ.refl _
  swapped p q ps false false = Permᴰ.refl _

  selected-permuted :
      (fs : FilterList) {ps qs : List DialogPeer}
      → Permᴰ ps qs
      → Permᴰ (selected lower tdlib_peer_id fs ps) (selected lower tdlib_peer_id fs qs)
  unfolding selected
  selected-permuted fs Permᴰ.nil = Permᴰ.nil
  selected-permuted fs (Permᴰ.cons p r) =
      kept _ _ p (ap (passes_all lower fs) p) (selected-permuted fs r)
  selected-permuted fs (Permᴰ.swap {a} {b} {l = l} p q) =
      Permᴰ.trans
        (swapped a b (selected lower tdlib_peer_id fs l) (passes_all lower fs a)
          (passes_all lower fs b))
        (kept _ _ q (ap (passes_all lower fs) q) (
          kept _ _ p (ap (passes_all lower fs) p) (Permᴰ.refl (selected lower tdlib_peer_id fs l))))
  selected-permuted fs (Permᴰ.trans p q) =
      Permᴰ.trans (selected-permuted fs p) (selected-permuted fs q)

  mem-kept :
      (p q : DialogPeer) (b : Bool) {ps rest : List DialogPeer}
      → (Memᴰ p rest → Memᴰ p ps)
      → Memᴰ p (if b then q ∷ rest else rest)
      → Memᴰ p (q ∷ ps)
  mem-kept p q true ih (Memᴰ.head e) = Memᴰ.head e
  mem-kept p q true ih (Memᴰ.tail n) = Memᴰ.tail (ih n)
  mem-kept p q false ih n = Memᴰ.tail (ih n)

  mem-selected :
      (fs : FilterList) (p : DialogPeer) (ps : List DialogPeer)
      → Memᴰ p (selected lower tdlib_peer_id fs ps)
      → Memᴰ p ps
  unfolding selected
  mem-selected fs p [] m = m
  mem-selected fs p (q ∷ ps) m = mem-kept p q (passes_all lower fs q) (mem-selected fs p ps) m

  -- What a client gets is from the map.
  mem-listed :
      (fs : FilterList) (p : DialogPeer) (ps : List DialogPeer)
      → Memᴰ p (sort_by (listing lower tdlib_peer_id) (selected lower tdlib_peer_id fs ps))
      → Memᴰ p ps
  mem-listed fs p ps m = mem-selected fs p ps (
      mem-permuted
        (Permᴰ.symm
          (perm-sort_by (listing lower tdlib_peer_id) (selected lower tdlib_peer_id fs ps)))
        m)

  -- The map may be visited in any order: where no two different peers of it have the same TDLib
  -- id, a client gets the same peers in the same order for every permutation of the visits.
  pub get_dialog_peers-permuted :
      (canceled : Bool) (fs : FilterList) {ps qs : List DialogPeer}
      → ((p q : DialogPeer)
          → Memᴰ p ps
          → Memᴰ q ps
          → tdlib_peer_id p.kind p.key_id ≡ tdlib_peer_id q.kind q.key_id
          → p ≡ q)
      → Permᴰ ps qs
      → get_dialog_peers lower tdlib_peer_id canceled fs ps
        ≡ get_dialog_peers lower tdlib_peer_id canceled fs qs
  unfolding get_dialog_peers
  get_dialog_peers-permuted true fs h r = refl
  get_dialog_peers-permuted false fs {ps} {qs} h r = ap success (
      same_list (listing lower tdlib_peer_id) _ _
        (λ p q m n e.
          h p q (mem-listed fs p ps m) (mem-permuted (Permᴰ.symm r) (mem-listed fs q qs n))
            (ap (λ (l : Text × ℕ). l.1) e))
        (map-sort_by-permuted (listing lower tdlib_peer_id) (selected-permuted fs r)))

  -- Of a context that is not canceled: what it gives.
  pub record IsListed (fs : FilterList) (ps : List DialogPeer) : Type 0 where
    pub peers : List DialogPeer
    pub gives : get_dialog_peers lower tdlib_peer_id false fs ps ≡ success peers
    pub all_selected : Permᴰ (selected lower tdlib_peer_id fs ps) peers
    pub in_order : sorted (listing lower tdlib_peer_id) peers ≡ true

  -- A client gets exactly the peers that pass every filter, each as often as the map has it, and none
  -- stands behind one that the comparison of names and ids puts after it.
  pub get_dialog_peers-IsListed : (fs : FilterList) (ps : List DialogPeer) → IsListed fs ps
  unfolding get_dialog_peers
  get_dialog_peers-IsListed fs ps = record {
    peers = sort_by (listing lower tdlib_peer_id) (selected lower tdlib_peer_id fs ps);
    gives = refl;
    all_selected = perm-sort_by (listing lower tdlib_peer_id) (selected lower tdlib_peer_id fs ps);
    in_order = sort_by-sorted (listing lower tdlib_peer_id) (selected lower tdlib_peer_id fs ps);
  }
