-- ===== src/Yadisk/Media/Best.antt =====
-- What is chosen among the qualities of a video, the previews of an image and the entries of a master
-- playlist is the first of the greatest.
use tgdownloader.Prelude.{
  is_empty, ℕ, ◌≡◌, refl, sym, ap, ◌∙◌, true, false, Option, none, some, List, [], ◌∷◌, ltb,
  if◌then◌else◌, Bool-cases, inl, inr, Text,
}
use tgdownloader.Prelude.FirstMax.{
  first_max, first_max-greater, first_max-others, IsFirstMax, first_max-IsFirstMax,
}
use tgdownloader.Renderer.Sanitize.{trim_space}
use tgdownloader.Yadisk.Names.{size_rank}
use tgdownloader.Yadisk.Media.{
  VideoStream, is_adaptive, best_stream, choose_best_video_stream, ResourceSize, PublicResource,
  chosen_url, size_step, choose_size, choose_resource_size_url,
}
use tgdownloader.Yadisk.Playlist.{Entry, best_entry, best_uri}

abbrev height : VideoStream → ℕ
height s = s.height

pub non_adaptive : List VideoStream → List VideoStream
non_adaptive [] = []
non_adaptive (s ∷ ss) = let rest = non_adaptive ss in if is_adaptive s then rest else s ∷ rest

abbrev first_or : VideoStream → List VideoStream → VideoStream
first_or b [] = b
first_or b (c ∷ cs) = first_max height c cs

best_stream-non_adaptive :
    (b : VideoStream) (ss : List VideoStream)
    → is_adaptive b ≡ false
    → best_stream b ss ≡ first_max height b (non_adaptive ss)
unfolding best_stream non_adaptive first_max
best_stream-non_adaptive b [] h = refl
best_stream-non_adaptive b (s ∷ ss) h = elim (Bool-cases (is_adaptive s)) [
  | inl q ↦ rw q (best_stream-non_adaptive b ss h)
  | inr q ↦ elim (Bool-cases (ltb b.height s.height)) [
    | inl r ↦
        rw (q, h, r)
          (best_stream-non_adaptive s ss q ∙ sym (first_max-greater height b s (non_adaptive ss) r))
    | inr r ↦
        rw (q, h, r)
          (best_stream-non_adaptive b ss h ∙ sym (first_max-others height b s (non_adaptive ss) r))
  ]
]

best_stream-adaptive :
    (b : VideoStream) (ss : List VideoStream)
    → is_adaptive b ≡ true
    → best_stream b ss ≡ first_or b (non_adaptive ss)
unfolding best_stream non_adaptive
best_stream-adaptive b [] h = refl
best_stream-adaptive b (s ∷ ss) h = elim (Bool-cases (is_adaptive s)) [
  | inl q ↦ rw q (best_stream-adaptive b ss h)
  | inr q ↦ rw (q, h) (best_stream-non_adaptive s ss q)
]

-- Among the streams that are not adaptive the first of the highest; the first of all where there are
-- none.
abbrev pub IsBestStream : VideoStream → List VideoStream → VideoStream → Type 0
IsBestStream s [] b = b ≡ s
IsBestStream s (c ∷ cs) b = IsFirstMax height (c ∷ cs) b

first_or-IsBestStream :
    (s : VideoStream) (cs : List VideoStream) → IsBestStream s cs (first_or s cs)
first_or-IsBestStream s [] = refl
first_or-IsBestStream s (c ∷ cs) = first_max-IsFirstMax height c cs

best_stream-IsBestStream :
    (s : VideoStream) (ss : List VideoStream)
    → IsBestStream s (non_adaptive (s ∷ ss)) (best_stream s ss)
unfolding non_adaptive
best_stream-IsBestStream s ss = elim (Bool-cases (is_adaptive s)) [
  | inl q ↦ rw (q, best_stream-adaptive s ss q) (first_or-IsBestStream s (non_adaptive ss))
  | inr q ↦
      rw (q, best_stream-non_adaptive s ss q) (first_max-IsFirstMax height s (non_adaptive ss))
]

-- Of any streams but none, `ChooseBestVideoStream` gives the first of the highest among those that
-- are not adaptive, and the first of all where every one is adaptive.
pub choose_best_video_stream-IsBestStream :
    (s : VideoStream) (ss : List VideoStream)
    → (b : VideoStream) × ((choose_best_video_stream (s ∷ ss) ≡ some b)
        × IsBestStream s (non_adaptive (s ∷ ss)) b)
unfolding choose_best_video_stream
choose_best_video_stream-IsBestStream s ss =
    (best_stream s ss, (refl, best_stream-IsBestStream s ss))

-- The sub-playlist of a master playlist: the entry of the greatest bandwidth, the first of equals.
abbrev pub IsBestEntry : List Entry → Option Text → Type 0
IsBestEntry [] uri = uri ≡ none
IsBestEntry (e ∷ es) uri =
    (b : Entry) × ((uri ≡ some b.1) × IsFirstMax (λ (x : Entry). x.0) (e ∷ es) b)

best_entry-first_max :
    (b : Entry) (es : List Entry) → best_entry b es ≡ first_max (λ (x : Entry). x.0) b es
unfolding best_entry first_max
best_entry-first_max b [] = refl
best_entry-first_max b (e ∷ es) = best_entry-first_max (if ltb b.0 e.0 then e else b) es

pub best_uri-IsBestEntry : (es : List Entry) → IsBestEntry es (best_uri es)
best_uri-IsBestEntry [] = refl
best_uri-IsBestEntry (e ∷ es) = (
  best_entry e es,
  (refl, rw (best_entry-first_max e es) (first_max-IsFirstMax (λ (x : Entry). x.0) e es)),
)

module _ (lower : ℕ → ℕ) where
  -- The previews with a URL, each by its rank.
  pub ranked : List ResourceSize → List Entry
  ranked [] = []
  ranked (s ∷ ss) =
      let rest = ranked ss in
      if is_empty (trim_space s.url)
      then rest
      else (size_rank lower s.name, trim_space s.url) ∷ rest

  abbrev rank : Entry → ℕ
  rank e = e.0

  choose_size-some :
      (b : Entry) (ss : List ResourceSize)
      → choose_size lower (some b) ss ≡ some (first_max rank b (ranked ss))
  unfolding choose_size size_step ranked first_max
  choose_size-some b [] = refl
  choose_size-some b (s ∷ ss) = elim (Bool-cases (is_empty (trim_space s.url))) [
    | inl q ↦ rw q (choose_size-some b ss)
    | inr q ↦ elim (Bool-cases (ltb b.0 (size_rank lower s.name))) [
      | inl r ↦
          let e : Entry = (size_rank lower s.name, trim_space s.url) in
          rw (q, r)
            (choose_size-some e ss ∙ ap some (sym (first_max-greater rank b e (ranked ss) r)))
      | inr r ↦
          let e : Entry = (size_rank lower s.name, trim_space s.url) in
          rw (q, r)
            (choose_size-some b ss ∙ ap some (sym (first_max-others rank b e (ranked ss) r)))
    ]
  ]

  abbrev pub IsBestSize : List Entry → Text → Type 0
  IsBestSize [] u = u ≡ []
  IsBestSize (e ∷ es) u = (b : Entry) × ((u ≡ b.1) × IsFirstMax rank (e ∷ es) b)

  choose_size-IsBestSize :
      (ss : List ResourceSize) → IsBestSize (ranked ss) (chosen_url (choose_size lower none ss))
  unfolding choose_size size_step ranked
  choose_size-IsBestSize [] = refl
  choose_size-IsBestSize (s ∷ ss) = elim (Bool-cases (is_empty (trim_space s.url))) [
    | inl q ↦ rw q (choose_size-IsBestSize ss)
    | inr q ↦
        let e : Entry = (size_rank lower s.name, trim_space s.url) in
        rw (q, choose_size-some e ss)
          (first_max rank e (ranked ss), (refl, first_max-IsFirstMax rank e (ranked ss)))
  ]

  -- `chooseResourceSizeURL` gives the URL of the first preview of the highest rank among those that
  -- have a URL, and nothing exactly where none has.
  pub choose_resource_size_url-IsBestSize :
      (meta : PublicResource) → IsBestSize (ranked meta.sizes) (choose_resource_size_url lower meta)
  unfolding choose_resource_size_url
  choose_resource_size_url-IsBestSize meta = choose_size-IsBestSize meta.sizes
