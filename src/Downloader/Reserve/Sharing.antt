-- ===== src/Downloader/Reserve/Sharing.antt =====
-- Over a whole queue of files, no two different files are given one path.
use tgdownloader.Prelude.{
  ℕ, ◌≡◌, refl, ◌∙◌, some, get_elem?, All-get_elem?, Bool, List, [], ◌∷◌, Text, nat_eq, list_eq,
  All,
}
use mathlib.Core.Path.{subst}
use tgdownloader.Prelude.Map
use tgdownloader.Downloader.Manifest.{lookup}
use tgdownloader.Prelude.Map.{Map}
use tgdownloader.Downloader.Reserve.{
  File, Queue, Stat, reserve_paths, reserve_output_paths, reserve_all, or_in_output_dir,
  subdir_paths, known_path, new_queue,
}
use tgdownloader.Downloader.Reserve.Claims.{
  Extends, IsConsistent, RoundTrips, Reserves, reserve_path-ends, Reserves-IsConsistent,
  IsClaimed-get, IsClaimed-Extends,
}

-- Every path of the list is claimed by the identity.
abbrev pub Owns : Map Text Text → Text → List Text → Type 0
Owns claims identity paths = All (λ p. Map.get claims p ≡ some identity) paths

Owns-Extends :
    {c c' : Map Text Text} (identity : Text) (paths : List Text)
    → Extends c c'
    → Owns c identity paths
    → Owns c' identity paths
Owns-Extends identity [] x h = tt
Owns-Extends identity (p ∷ ps) x h = (x.keeps p identity h.0, Owns-Extends identity ps x h.1)

-- A step of the queue that keeps the agreement of claims and manifest, the directory and all claims.
pub record Keeps (q q' : Queue) : Type 0 where
  pub consistent : IsConsistent q'
  pub same_dir : q'.output_dir ≡ q.output_dir
  pub extends : Extends q.path_claims q'.path_claims

Keeps-trans : {q q' q'' : Queue} → Keeps q q' → Keeps q' q'' → Keeps q q''
Keeps-trans a b = record {
  consistent = b.consistent;
  same_dir = b.same_dir ∙ a.same_dir;
  extends = record { keeps = λ p i e. b.extends.keeps p i (a.extends.keeps p i e) };
}

Keeps-refl : {q : Queue} → IsConsistent q → Keeps q q
Keeps-refl c = record { consistent = c; same_dir = refl; extends = record { keeps = λ p i e. e } }

Reserves-Keeps :
    (q : Queue) (file : File) (s : Text × Queue)
    → Reserves q file s
    → IsConsistent q
    → RoundTrips q.output_dir s.0
    → Keeps q s.1
Reserves-Keeps q file s r c trip = record {
  consistent = Reserves-IsConsistent q file s r c trip;
  same_dir = r.same_dir;
  extends = IsClaimed-Extends r.claim;
}

AllRoundTrip : Text → List Text → Type 0
AllRoundTrip dir paths = All (RoundTrips dir) paths

reserve_paths-ends :
    (stat : Stat) (q : Queue) (file : File) (ps : List Text)
    → (s : List Text × Queue) × (reserve_paths stat q file ps ≡ some s)
      × (IsConsistent q
          → All (RoundTrips q.output_dir) s.0
          → Keeps q s.1 × Owns s.1.path_claims file.identity s.0)
unfolding reserve_paths
reserve_paths-ends stat q file [] = (([], q), refl, λ c trips. (Keeps-refl c, tt))
reserve_paths-ends stat q file (p ∷ ps) =
    let ((path, q'), ends, reserves) = reserve_path-ends stat q file p in
    let ((paths, q''), ends', rest) = reserve_paths-ends stat q' file ps in
    (
      (path ∷ paths, q''),
      rw (ends, ends', reserve_paths) refl,
      λ c trips.
          let r = reserves c in
          let k = Reserves-Keeps q file (path, q') r c trips.0 in
          let (k', owned) = rest k.consistent (rw k.same_dir trips.1) in
          (Keeps-trans k k', (k'.extends.keeps path file.identity (IsClaimed-get r.claim), owned)),
    )

abbrev pub PathsRoundTrip : Text → List File → Type 0
PathsRoundTrip dir files = All (λ f. All (RoundTrips dir) f.output_paths) files

abbrev pub OwnPaths : Map Text Text → List File → Type 0
OwnPaths claims files = All (λ f. Owns claims f.identity f.output_paths) files

reserve_output_paths-ends :
    (stat : Stat) (q : Queue) (file : File)
    → (s : File × Queue) × (reserve_output_paths stat q file ≡ some s)
      × (s.0.identity ≡ file.identity)
      × (IsConsistent q
          → All (RoundTrips q.output_dir) s.0.output_paths
          → Keeps q s.1 × Owns s.1.path_claims s.0.identity s.0.output_paths)
unfolding reserve_output_paths
reserve_output_paths-ends stat q file =
    let ((paths, q'), ends, rest) = reserve_paths-ends stat q file (
      or_in_output_dir q.output_dir file.name (subdir_paths q.output_dir file.name file.subdirs)) in
    ((record file { output_paths = paths }, q'), rw (ends, reserve_output_paths) refl, refl, rest)

reserve_queue-ends :
    (q : Queue) (requests : List (Stat × File))
    → (s : List File × Queue) × (reserve_all q requests ≡ some s)
      × (IsConsistent q
          → PathsRoundTrip q.output_dir s.0
          → Keeps q s.1 × OwnPaths s.1.path_claims s.0)
unfolding reserve_all
reserve_queue-ends q [] = (([], q), refl, λ c trips. (Keeps-refl c, tt))
reserve_queue-ends q ((stat, file) ∷ rest) =
    let ((reserved, q'), ends, _, owns) = reserve_output_paths-ends stat q file in
    let ((files, q''), ends', owns') = reserve_queue-ends q' rest in
    (
      (reserved ∷ files, q''),
      rw (ends, ends', reserve_all) refl,
      λ c trips.
          let (k, owned) = owns c trips.0 in
          let (k', owned') = owns' k.consistent (rw k.same_dir trips.1) in
          (
            Keeps-trans k k',
            (Owns-Extends reserved.identity reserved.output_paths k'.extends owned, owned'),
          ),
    )

-- Reserving always ends, whatever the claims, the manifest and the existing files are: every file of
-- the queue gets its paths.
pub reserve_all-ends :
    (q : Queue) (requests : List (Stat × File))
    → (s : List File × Queue) × (reserve_all q requests ≡ some s)
reserve_all-ends q requests = let (s, ends, _) = reserve_queue-ends q requests in (s, ends)

-- After the queue each file has the claim on each of its paths.
reserve_all-OwnPaths :
    (q q' : Queue) (requests : List (Stat × File)) (files : List File)
    → IsConsistent q
    → reserve_all q requests ≡ some (files, q')
    → PathsRoundTrip q.output_dir files
    → OwnPaths q'.path_claims files
reserve_all-OwnPaths q q' requests files c e trips =
    let ((files', q''), ends, owns) = reserve_queue-ends q requests in
    let same : ◌≡◌ {A = List File × Queue} (files', q'') (files, q') = cc in
    (subst
      (λ (s : List File × Queue).
        PathsRoundTrip q.output_dir s.0 → Keeps q s.1 × OwnPaths s.1.path_claims s.0)
      same (owns c) trips).1

-- Two files of one queue that are given a common path have one identity: different files never
-- write to one path. Claims and manifest are assumed to agree at the start, and every path that is
-- handed out to lead back to itself through the form in which the manifest stores it. Dry runs,
-- files that exist already and paths that the manifest remembers are included.
pub reserve_all-distinct :
    (q q' : Queue) (requests : List (Stat × File)) (files : List File)
    → IsConsistent q
    → reserve_all q requests ≡ some (files, q')
    → PathsRoundTrip q.output_dir files
    → (i j m n : ℕ) (f g : File) (path : Text) → get_elem? files i ≡ some f
    → get_elem? files j ≡ some g
    → get_elem? f.output_paths m ≡ some path
    → get_elem? g.output_paths n ≡ some path
    → f.identity ≡ g.identity
reserve_all-distinct q q' requests files c e trips i j m n f g path hi hj hm hn =
    let owned = reserve_all-OwnPaths q q' requests files c e trips in
    let mine = All-get_elem? _ f.output_paths m (All-get_elem? _ files i owned hi) hm in
    let yours = All-get_elem? _ g.output_paths n (All-get_elem? _ files j owned hj) hn in cc

-- Without claims and with an empty manifest, as after `New`, both agree.
pub new_queue-IsConsistent : (dir : Text) (dry_run : Bool) → IsConsistent (new_queue dir dry_run)
unfolding new_queue known_path lookup Map.get
new_queue-IsConsistent dir dry_run = record { claimed = λ l i a e. cc }
