-- ===== src/Downloader/Reserve/Claims.antt =====
-- Reserving paths never takes a path away from the file that has it.
use tgdownloader.Prelude.{
  ◌≡◌, refl, sym, ap, ◌∙◌, true, not, ◌&&◌, Option, none, some, [], ◌∷◌, Text, ◌==◌, nat_eq,
  list_eq, list_beq_iff, beq_refl, Bool-cases, inl, inr, ◌⊎◌,
}
use tgdownloader.Prelude.Map
use tgdownloader.Prelude.Map.{Map}
use tgdownloader.Downloader.FilePath.{join}
use tgdownloader.Downloader.Manifest.{lookup, assign, clean_manifest_path, lookup-assign}
use tgdownloader.Downloader.Reserve.{
  File, Queue, Stat, relative_output_path, is_free, is_claimed, choose_path,
  has_ambiguous_existing_file, known_path, clean_actual, store_choice, reserve_known, reserve_path,
}
use tgdownloader.Downloader.Reserve.Fresh.{IsClaimed, claim_identified_path-ends}

-- Every claim of `c` stands in `c'`.
pub record Extends (c c' : Map Text Text) : Type 0 where
  pub keeps : (p i : Text) → Map.get c p ≡ some i → Map.get c' p ≡ some i

module _ {claims : Map Text Text} {identity : Text} {r : Text × Map Text Text}
    (h : IsClaimed claims identity r) where
  pub IsClaimed-get : Map.get r.1 r.0 ≡ some identity
  IsClaimed-get = rw (h.now, Map.get-put, beq_refl r.0) refl

  pub IsClaimed-Extends : Extends claims r.1
  IsClaimed-Extends = record {
    keeps = λ p i e.
        rw (h.now, Map.get-put)
          (elim (Bool-cases (r.0 == p)) [
            | inl same ↦ rw same (same_claim p i e ((list_beq_iff r.0 p).0 same))
            | inr other ↦ rw other e
          ]);
  }
    where
      same_claim : (p i : Text) → Map.get claims p ≡ some i → r.0 ≡ p → some identity ≡ some i
      same_claim p i e q =
          let e' : Map.get claims r.0 ≡ some i = rw q e in
          let free : (i == identity) ≡ true = rw e' at h.was_free in
          ap some (sym ((list_beq_iff i identity).0 free))

-- Choosing a path always succeeds, on every branch, with a path that was free for the file.
pub choose_path-ends :
    (stat : Stat) (claims : Map Text Text) (output_path : Text) (file : File)
    → (r : Text × Map Text Text) × (choose_path stat claims output_path file ≡ some r)
      × IsClaimed claims file.identity r
unfolding choose_path
choose_path-ends stat claims p file =
    elim (Bool-cases
      (not (is_claimed (Map.get claims p)) && has_ambiguous_existing_file stat p file)) [
        | inl a ↦ rw a (claim_identified_path-ends claims p file.identity)
        | inr a ↦ elim (Bool-cases (is_free (Map.get claims p) file.identity)) [
          | inl f ↦ (
            (p, Map.put claims p file.identity),
            rw (a, f) refl,
            record { was_free = f; now = refl },
          )
          | inr t ↦ rw (a, t) (claim_identified_path-ends claims p file.identity)
        ]
      ]

-- What the manifest says of a file's path, the claims say too.
pub record IsConsistent (q : Queue) : Type 0 where
  pub claimed :
      (logical identity actual : Text)
      → known_path q logical identity ≡ some actual
      → Map.get q.path_claims (join (q.output_dir ∷ actual ∷ [])) ≡ some identity

-- A path in the manifest's form, relative to the output directory, leads back to the path itself.
abbrev pub RoundTrips : Text → Text → Type 0
RoundTrips dir path =
    (actual : Text)
    → clean_manifest_path (relative_output_path dir path) ≡ some actual
    → join (dir ∷ actual ∷ []) ≡ path

-- What one round of `reserveOutputPaths` does.
pub record Reserves (q : Queue) (file : File) (r : Text × Queue) : Type 0 where
  pub claim : IsClaimed q.path_claims file.identity (r.0, r.1.path_claims)
  pub same_dir : r.1.output_dir ≡ q.output_dir
  pub entries :
      (logical identity : Text)
      → (lookup r.1.manifest logical identity ≡ lookup q.manifest logical identity)
        ⊎ ((identity ≡ file.identity)
            × (lookup r.1.manifest logical identity ≡ some (relative_output_path q.output_dir r.0)))

store_choice-Reserves :
    (q : Queue) (logical : Text) (file : File) (r : Text × Map Text Text)
    → IsClaimed q.path_claims file.identity r
    → (s : Text × Queue) × (store_choice q logical file (some r) ≡ some s) × Reserves q file s
unfolding store_choice
store_choice-Reserves q logical file (path, claims) c = elim (Bool-cases q.dry_run) [
  | inl d ↦ (
    (path, record q { path_claims = claims }),
    rw d refl,
    record { claim = c; same_dir = refl; entries = λ l i. inl refl },
  )
  | inr d ↦ (
    (
      path,
      record q {
        path_claims = claims;
        manifest = assign q.manifest logical file.identity (relative_output_path q.output_dir path);
        manifest_dirty = true;
      },
    ),
    rw d refl,
    record { claim = c; same_dir = refl; entries = λ l i. assigned l i },
  )
]
  where
    assigned :
        (l i : Text)
        → (lookup
              (assign q.manifest logical file.identity (relative_output_path q.output_dir path))
              l
              i
            ≡ lookup q.manifest l i)
          ⊎ ((i ≡ file.identity)
              × (lookup
                    (assign q.manifest logical file.identity
                      (relative_output_path q.output_dir path))
                    l
                    i
                  ≡ some (relative_output_path q.output_dir path)))
    assigned l i = elim (Bool-cases (logical == l)) [
      | inl a ↦ elim (Bool-cases (file.identity == i)) [
        | inl b ↦ inr (sym ((list_beq_iff file.identity i).0 b), rw (lookup-assign, a, b) refl)
        | inr b ↦ inl (rw (lookup-assign, a, b) refl)
      ]
      | inr a ↦ inl (rw (lookup-assign, a) refl)
    ]

is_free_own : (identity : Text) → is_free (some identity) identity ≡ true
is_free_own identity = beq_refl identity

-- A path that the manifest gives is claimed already, if claims and manifest agree.
abbrev Known : Queue → Text → Option Text → Type 0
Known q identity o =
    (actual : Text)
    → o ≡ some actual
    → Map.get q.path_claims (join (q.output_dir ∷ actual ∷ [])) ≡ some identity

reserve_known-ends :
    (stat : Stat) (q : Queue) (file : File) (p : Text) (o : Option Text)
    → (s : Text × Queue) × (reserve_known stat q file p o ≡ some s)
      × (Known q file.identity o → Reserves q file s)
reserve_known-ends stat q file p (some actual) =
    let path : Text = join (q.output_dir ∷ actual ∷ []) in
    (
      (path, record q { path_claims = Map.put q.path_claims path file.identity }),
      refl,
      λ known. record {
        claim = record {
          was_free = rw (known actual refl) (is_free_own file.identity);
          now = refl;
        };
        same_dir = refl;
        entries = λ l i. inl refl;
      },
    )
reserve_known-ends stat q file p none =
    let (r, chosen, claimed) = choose_path-ends stat q.path_claims p file in
    let (s, stored, reserves) =
      store_choice-Reserves q (relative_output_path q.output_dir p) file r claimed in
    (s, rw chosen stored, λ _. reserves)

-- A round always succeeds.
pub reserve_path-ends :
    (stat : Stat) (q : Queue) (file : File) (p : Text)
    → (s : Text × Queue) × (reserve_path stat q file p ≡ some s)
      × (IsConsistent q → Reserves q file s)
unfolding reserve_path
reserve_path-ends stat q file p =
    let (s, ends, reserves) =
      reserve_known-ends stat q file p
        (known_path q (relative_output_path q.output_dir p) file.identity) in
    (
      s,
      ends,
      λ c.
          reserves
            (λ actual e. c.claimed (relative_output_path q.output_dir p) file.identity actual e),
    )

-- The claims and the manifest still agree after a round whose path leads back to itself.
pub Reserves-IsConsistent :
    (q : Queue) (file : File) (s : Text × Queue)
    → Reserves q file s
    → IsConsistent q
    → RoundTrips q.output_dir s.0
    → IsConsistent s.1
unfolding known_path
Reserves-IsConsistent q file (path, q') r c trip = record {
  claimed = λ l i actual e. elim (r.entries l i) [
    | inl same ↦ rw r.same_dir (
        (IsClaimed-Extends r.claim).keeps _ i
          (c.claimed l i actual (ap clean_actual (sym same) ∙ e)))
    | inr (mine, new) ↦
        let e' : clean_manifest_path (relative_output_path q.output_dir path) ≡ some actual =
          ap clean_actual (sym new) ∙ e in
        rw (r.same_dir, trip actual e', mine) (IsClaimed-get r.claim)
  ];
}
