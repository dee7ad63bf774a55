-- ===== src/Yadisk/Directory/Tree.antt =====
-- The files of a directory tree, and that the client collects them.
use tgdownloader.Prelude.{
  is_empty, ℕ, zero, suc, ◌+◌, ◌-◌, ◌≤◌, ◌<◌, ◌≡◌, refl, sym, ap, ◌∙◌, true, false, List, [], ◌∷◌,
  ◌++◌, Text, ◌==◌, nat_eq, list_eq, length, drop, leb, arith, Bool-cases, inl, inr, length-append,
  length-drop, drop-append, append-nil, pos,
}
use Prim.Native.Nat.{max}
use tgdownloader.Yadisk.Media.{PublicResource, ResourceAnswer}
use tgdownloader.Yadisk.Http.{ok, Library, Client, Service, get_public_resource}
use tgdownloader.Yadisk.Resolve.{PublicDownload}
use tgdownloader.Yadisk.Directory.{
  dir_type, file_type, page_size, answer_items, answer_total, list_from, list_directory_items,
  collect_items, collect_directory_files,
}
use tgdownloader.Yadisk.Directory.Entry.{IsListed, entry_files, entry_files-IsListed}

-- A directory's entries: what is no directory, with the files that are to be listed of it, and the
-- directories with their entries.
mutual
  pub data Node : Type 0 where
    leaf : PublicResource → List PublicDownload → Node
    folder : PublicResource → Nodes → Node

  pub data Nodes : Type 0 where
    nil : Nodes
    cons : Node → Nodes → Nodes

abbrev pub resource_of : Node → PublicResource
resource_of (leaf r files) = r
resource_of (folder r ns) = r

abbrev pub resources : Nodes → List PublicResource
resources nil = []
resources (cons n ns) = resource_of n ∷ resources ns

unfoldable mutual
  pub node_depth : Node → ℕ
  node_depth (leaf r files) = 0
  node_depth (folder r ns) = suc (nodes_depth ns)

  pub nodes_depth : Nodes → ℕ
  nodes_depth nil = 0
  nodes_depth (cons n ns) = max (node_depth n) (nodes_depth ns)

-- The files in the order of the tree.
unfoldable mutual
  pub node_files : Node → List PublicDownload
  node_files (leaf r files) = files
  node_files (folder r ns) = nodes_files ns

  pub nodes_files : Nodes → List PublicDownload
  nodes_files nil = []
  nodes_files (cons n ns) = node_files n ++ nodes_files ns

drop-drop {ℓ} : {A : Type ℓ} (k n : ℕ) (xs : List A) → drop (k + n) xs ≡ drop n (drop k xs)
drop-drop zero n xs = let e : 0 + n ≡ n = omega arith in rw e refl
drop-drop (suc k) zero [] = let e : suc k + 0 ≡ suc k = omega arith in rw e refl
drop-drop (suc k) (suc n) [] = let e : suc k + suc n ≡ suc (k + suc n) = omega arith in rw e refl
drop-drop (suc k) n (x ∷ xs) =
    let e : suc k + n ≡ suc (k + n) = omega arith in rw e (drop-drop k n xs)

empty_of_length {ℓ} : {A : Type ℓ} (xs : List A) → length xs ≡ 0 → xs ≡ []
empty_of_length [] h = refl
empty_of_length (x ∷ xs) h = ground (arith, h)

empty_of_is_empty {ℓ} : {A : Type ℓ} (xs : List A) → is_empty xs ≡ true → xs ≡ []
empty_of_is_empty [] h = refl
empty_of_is_empty (x ∷ xs) h = cc

positive_of_is_empty {ℓ} : {A : Type ℓ} (xs : List A) → is_empty xs ≡ false → 1 ≤ length xs
positive_of_is_empty [] h = cc
positive_of_is_empty (x ∷ xs) h = omega arith

module _ (lib : Library) (client : Client) (service : Service) (public_url : Text) where
  -- The page at an offset: entries of the directory from there on, some where there are any, with the
  -- number of all entries.
  pub record PageAt (path : Text) (items : List PublicResource) (offset : ℕ) : Type 0 where
    pub answer : ResourceAnswer
    pub fetched :
        get_public_resource lib client service public_url path page_size offset ≡ ok answer
    pub others : List PublicResource
    pub splits : drop offset items ≡ answer_items answer.embedded ++ others
    pub has_some : is_empty (answer_items answer.embedded) ≡ true → is_empty others ≡ true
    pub counts : answer_total answer.embedded ≡ pos (length items)

  abbrev pub Lists : Text → List PublicResource → Type 0
  Lists path items = (offset : ℕ) → offset ≤ length items → PageAt path items offset

  list_from-Lists :
      (fuel : ℕ) (path : Text) (items : List PublicResource) (offset : ℕ)
      → Lists path items
      → length items < offset + fuel
      → offset ≤ length items
      → list_from lib client service public_url fuel path offset ≡ ok (drop offset items)
  unfolding list_from
  list_from-Lists zero path items offset lists h k = absurd (omega (arith, h, k))
  list_from-Lists (suc fuel) path items offset lists h k =
      let p : PageAt path items offset = lists offset k in
      let page : List PublicResource = answer_items p.answer.embedded in
      let size : length items - offset ≡ length page + length p.others =
        sym (length-drop offset items) ∙ ap length p.splits ∙ length-append page p.others in
      elim (Bool-cases (is_empty page)) [
        | inl q ↦
            let none_left : drop offset items ≡ [] =
              rw (p.splits, empty_of_is_empty page q, empty_of_is_empty p.others (p.has_some q))
                refl in
            rw (p.fetched, q, none_left) refl
        | inr q ↦ elim (Bool-cases (leb (length items) (offset + length page))) [
          | inl r ↦
              let last : p.others ≡ [] = empty_of_length p.others (ground (arith, r, size)) in
              let all : drop offset items ≡ page = rw (p.splits, last) (append-nil page) in
              rw (p.fetched, q, p.counts, r) (ap ok (sym all))
          | inr r ↦
              let next : drop (offset + length page) items ≡ p.others =
                rw (drop-drop offset (length page) items, p.splits) (drop-append page p.others) in
              let rest =
                list_from-Lists fuel path items (offset + length page) lists
                  (omega (arith, h, positive_of_is_empty page q)) (ground (arith, r)) in
              rw (p.fetched, q, p.counts, r, rest, next) (ap ok (sym p.splits))
        ]
      ]

  -- A directory whose pages the service serves is listed whole and in order, with more rounds than it
  -- has entries.
  pub list_directory_items-Lists :
      (fuel : ℕ) (path : Text) (items : List PublicResource)
      → Lists path items
      → length items < fuel
      → list_directory_items lib client service public_url fuel path ≡ ok items
  unfolding list_directory_items
  list_directory_items-Lists fuel path items lists h =
      list_from-Lists fuel path items 0 lists (omega (arith, h)) (omega arith)

  -- The service serves the tree: every directory in it, with fewer entries than `pages`, and what is
  -- to be listed of each other entry below the root is with it.
  unfoldable mutual
    pub Serves : ℕ → Text → Node → Type 0
    Serves pages root (leaf r files) =
        ((r.resource_type == dir_type) ≡ false) × IsListed lib.lower root r files
    Serves pages root (folder r ns) =
        ((r.resource_type == dir_type) ≡ true)
        × (Lists r.path (resources ns)
            × ((length (resources ns) < pages) × ServesAll pages root ns))

    pub ServesAll : ℕ → Text → Nodes → Type 0
    ServesAll pages root nil = Unit
    ServesAll pages root (cons n ns) = Serves pages root n × ServesAll pages root ns

  collect_items-leaf :
      (depth pages : ℕ) (root : Text) (r : PublicResource) (items : List PublicResource)
      (files : List PublicDownload)
      → (r.resource_type == dir_type) ≡ false
      → collect_items lib client service public_url
          (λ path. collect_directory_files lib client service public_url depth pages root path)
          root
          items
        ≡ ok files
      → collect_items lib client service public_url
          (λ path. collect_directory_files lib client service public_url depth pages root path)
          root
          (r ∷ items)
        ≡ ok (entry_files lib.lower root r ++ files)
  unfolding collect_items
  collect_items-leaf depth pages root r items files h rest =
      elim (Bool-cases (r.resource_type == file_type)) [
        | inl q ↦ rw (h, q, rest) refl
        | inr q ↦ rw (h, q, rest) refl
      ]

  -- That the directories of a tree that is not too deep are collected.
  abbrev Collects : ℕ → ℕ → Text → Type 0
  Collects depth pages root =
      (path : Text) (ns : Nodes)
      → nodes_depth ns < depth
      → Lists path (resources ns)
      → length (resources ns) < pages
      → ServesAll pages root ns
      → collect_directory_files lib client service public_url depth pages root path
        ≡ ok (nodes_files ns)

  collect_items-nodes :
      (depth pages : ℕ) (root : Text) (ns : Nodes)
      → Collects depth pages root
      → nodes_depth ns ≤ depth
      → ServesAll pages root ns
      → collect_items lib client service public_url
          (λ path. collect_directory_files lib client service public_url depth pages root path)
          root
          (resources ns)
        ≡ ok (nodes_files ns)
  unfolding collect_items node_files node_depth Serves
  collect_items-nodes depth pages root nil nested h s = refl
  collect_items-nodes depth pages root (cons (leaf r files) ns) nested h ((d, s), ss) =
      rw (entry_files-IsListed lib.lower root r s) at (
        collect_items-leaf depth pages root r (resources ns) _ d
          (collect_items-nodes depth pages root ns nested (omega (arith, h)) ss))
  collect_items-nodes depth pages root (cons (folder r inner) ns) nested h
        ((d, (l, (few, s))), ss) =
      rw
        (
          d,
          nested r.path inner (omega (arith, h)) l few s,
          collect_items-nodes depth pages root ns nested (omega (arith, h)) ss,
        )
        refl

  collect_directory_files-Collects : (depth pages : ℕ) (root : Text) → Collects depth pages root
  unfolding collect_directory_files
  collect_directory_files-Collects zero pages root path ns h l few s = absurd (omega (arith, h))
  collect_directory_files-Collects (suc depth) pages root path ns h l few s =
      rw (list_directory_items-Lists pages path (resources ns) l few) (
        collect_items-nodes depth pages root ns (collect_directory_files-Collects depth pages root)
          (omega (arith, h)) s)

  pub collect_directory_files-Serves :
      (depth pages : ℕ) (root : PublicResource) (ns : Nodes)
      → nodes_depth ns < depth
      → Serves pages root.path (folder root ns)
      → collect_directory_files lib client service public_url depth pages root.path root.path
        ≡ ok (nodes_files ns)
  unfolding Serves
  collect_directory_files-Serves depth pages root ns h (d, (l, (few, s))) =
      collect_directory_files-Collects depth pages root.path root.path ns h l few s
