-- ===== src/Downloader/FilePath.antt =====
-- What internal/downloader uses of Go's package `path`, on slash-separated byte strings, and of
-- `strings`: Clean, Join, IsAbs, Ext, TrimPrefix, TrimSuffix, HasPrefix.
use tgdownloader.Prelude.{
  ℕ, ◌-◌, ◌≡◌, refl, Bool, true, false, ◌&&◌, ◌||◌, List, [], ◌∷◌, ◌++◌, Text, ◌==◌, nat_eq,
  list_eq, length, take, drop, drop-append, beq_refl, if◌then◌else◌, codes,
}
use mathlib.Core.List.{reverse}

abbrev pub slash : ℕ
slash = b'/'

abbrev pub dot : ℕ
dot = b'.'

abbrev parent : Text
parent = dot ∷ dot ∷ []

abbrev push_byte : ℕ → List Text → List Text
push_byte c [] = (c ∷ []) ∷ []
push_byte c (s ∷ ss) = (c ∷ s) ∷ ss

-- The elements between the slashes.
unfoldable pub segments : Text → List Text
segments [] = [] ∷ []
segments (c ∷ cs) = if c == slash then [] ∷ segments cs else push_byte c (segments cs)

abbrev pop_segment : Bool → List Text → List Text
pop_segment rooted [] = if rooted then [] else parent ∷ []
pop_segment rooted (s ∷ ss) = if s == parent then parent ∷ s ∷ ss else ss

-- The elements kept so far, last first.
clean_segments : Bool → List Text → List Text → List Text
clean_segments rooted kept [] = kept
clean_segments rooted kept (s ∷ ss) =
    clean_segments rooted
      (if s == [] || s == dot ∷ []
        then kept
        else if s == parent
        then pop_segment rooted kept
        else s ∷ kept)
      ss

unfoldable pub join_segments : List Text → Text
join_segments [] = []
join_segments (s ∷ []) = s
join_segments (s ∷ t ∷ ts) = s ++ (slash ∷ join_segments (t ∷ ts))

unfoldable pub is_abs : Text → Bool
is_abs [] = false
is_abs (c ∷ cs) = c == slash

abbrev or_dot : Text → Text
or_dot [] = dot ∷ []
or_dot (c ∷ cs) = c ∷ cs

unfoldable pub clean : Text → Text
unfolding segments clean_segments join_segments is_abs
clean p =
    let out = join_segments (reverse (clean_segments (is_abs p) [] (segments p))) in
    if is_abs p then slash ∷ out else or_dot out

-- `path.Join`: empty elements in front are dropped, the rest is joined and cleaned.
join_raw : Text → List Text → Text
join_raw buffer [] = buffer
join_raw [] (e ∷ es) = join_raw e es
join_raw (b ∷ bs) (e ∷ es) = join_raw ((b ∷ bs) ++ (slash ∷ e)) es

abbrev clean_unless_empty : Text → Text
clean_unless_empty [] = []
clean_unless_empty (c ∷ cs) = clean (c ∷ cs)

unfoldable pub join : List Text → Text
unfolding clean join_raw
join elements = clean_unless_empty (join_raw [] elements)

unfoldable pub has_prefix : Text → Text → Bool
has_prefix s [] = true
has_prefix [] (c ∷ cs) = false
has_prefix (d ∷ ds) (c ∷ cs) = (d == c) && has_prefix ds cs

unfoldable pub trim_prefix : Text → Text → Text
unfolding has_prefix
trim_prefix s prefix = if has_prefix s prefix then drop (length prefix) s else s

pub has_prefix-append : (s t : Text) → has_prefix (s ++ t) s ≡ true
unfolding has_prefix
has_prefix-append [] t = refl
has_prefix-append (c ∷ s) t = rw (beq_refl c, has_prefix-append s t) refl

pub trim_prefix-append : (s t : Text) → trim_prefix (s ++ t) s ≡ t
unfolding trim_prefix
trim_prefix-append s t = rw (has_prefix-append s t) (drop-append s t)

unfoldable pub trim_suffix : Text → Text → Text
trim_suffix s suffix =
    let n : ℕ = length s - length suffix in if drop n s == suffix then take n s else s

-- The text from the last dot on, of the element behind the last slash.
ext_from : Text → Text → Text
ext_from found [] = found
ext_from found (c ∷ cs) =
    ext_from (if c == slash then [] else if c == dot then c ∷ cs else found) cs

unfoldable pub ext : Text → Text
unfolding ext_from
ext p = ext_from [] p

clean_examples :
    (clean (codes "/a//b/./../c/") ≡ codes "/a/c")
    × (clean (codes "../a/../../b") ≡ codes "../../b")
    × (clean (codes "/../a") ≡ codes "/a")
    × (clean [] ≡ codes ".")
unfolding clean
clean_examples = (refl, refl, refl, refl)

path_examples :
    (join (codes "" ∷ codes "out" ∷ codes "a/../b.txt" ∷ []) ≡ codes "out/b.txt")
    × (ext (codes "a.b/c.tar.gz") ≡ codes ".gz")
    × (ext (codes "a.b/c") ≡ [])
unfolding join ext
path_examples = (refl, refl, refl)
