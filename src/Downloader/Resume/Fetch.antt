-- ===== src/Downloader/Resume/Fetch.antt =====
-- A ranged download from an honest server delivers exactly what is missing.
use tgdownloader.Prelude.{
  ℕ, zero, suc, Bool, false, ◌&&◌, leb, ltb, ◌*◌, ◌%◌, ◌+◌, ◌-◌, ◌≤◌, ◌<◌, beq_refl, ◌≡◌, refl, ap,
  ◌∙◌, true, false, none, some, [], ◌∷◌, ◌++◌, Text, ◌==◌, nat_eq, length, take, drop, length-take,
  length-drop, take-append-drop, append_assoc, append-nil, arith, Bool-cases, inl, inr,
}
use Prim.Native.Nat.{min}
use native.Mathlib.Nat.{zero-add}
use tgdownloader.Downloader.Resume.{
  Service, upload_file, rpc_error, get_chunk, part_size, last_part, fetch_loop,
  download_from_offset,
}

-- The documented rules of a precise `upload.getFile`: an offset is divisible by a KiB, and a part lies
-- within a block of a MiB.
unfoldable pub is_allowed : ℕ → Bool
is_allowed offset = offset % 1024 == 0 && leb (offset % (1024 * 1024) + part_size) (1024 * 1024)

-- A server that holds `content` and keeps to these rules, with a writer that takes everything and a
-- context that stays.
abbrev pub honest : Text → Service
honest content = record {
  upload_get_file = λ offset. elim (is_allowed offset) [
    | true ↦ upload_file (take part_size (drop offset content))
    | false ↦ rpc_error
  ];
  writer = λ bytes. some (length bytes);
  is_done = λ offset. false;
}

take_all : (n : ℕ) (xs : Text) → length xs ≤ n → take n xs ≡ xs
take_all zero [] h = refl
take_all zero (x ∷ xs) h = absurd (omega arith)
take_all (suc n) [] h = refl
take_all (suc n) (x ∷ xs) h = ap (x ∷◌) (take_all n xs (omega arith))

drop-nil : (m : ℕ) → drop {A = ℕ} m [] ≡ []
drop-nil zero = refl
drop-nil (suc m) = refl

drop-drop : (n m : ℕ) (xs : Text) → drop m (drop n xs) ≡ drop (n + m) xs
drop-drop zero m xs = rw zero-add refl
drop-drop (suc n) m [] = let e : suc n + m ≡ suc (n + m) = omega arith in rw e (drop-nil m)
drop-drop (suc n) m (x ∷ xs) =
    let e : suc n + m ≡ suc (n + m) = omega arith in rw e (drop-drop n m xs)

drop_all : (n : ℕ) (xs : Text) → length xs ≤ n → drop n xs ≡ []
drop_all zero [] h = refl
drop_all zero (x ∷ xs) h = absurd (omega arith)
drop_all (suc n) [] h = refl
drop_all (suc n) (x ∷ xs) h = drop_all n xs (omega arith)

part_size_pos : 0 < part_size
unfolding part_size
part_size_pos = omega arith

part : Text → ℕ → Text
part content offset = take part_size (drop offset content)

length-part :
    (content : Text) (offset : ℕ)
    → length (part content offset) ≡ min part_size (length content - offset)
unfolding part
length-part content offset =
    omega (arith, length-take {0} part_size (drop offset content), length-drop {0} offset content)

part-nil :
    (content : Text) (offset : ℕ)
    → (length (part content offset) == 0) ≡ true
    → drop offset content ≡ []
part-nil content offset e =
    drop_all offset content (ground (arith, length-part content offset, part_size_pos))

part-last :
    (content : Text) (offset : ℕ)
    → last_part (length content) offset (part content offset) ≡ true
    → part content offset ≡ drop offset content
unfolding last_part part
part-last content offset e =
    take_all part_size (drop offset content)
      (ground (arith, length-part content offset, part_size_pos, length-drop {0} offset content))

part-more :
    (content : Text) (offset : ℕ)
    → offset < length content
    → last_part (length content) offset (part content offset) ≡ false
    → (length (part content offset) ≡ part_size)
      × (offset + length (part content offset) < length content)
unfolding last_part
part-more content offset h e = ground (arith, length-part content offset, part_size_pos)

part-drop :
    (content : Text) (offset : ℕ)
    → length (part content offset) ≡ part_size
    → part content offset ++ drop (offset + length (part content offset)) content
      ≡ drop offset content
part-drop content offset e =
    rw (e, ← drop-drop offset part_size content)
      (unfold part in take-append-drop part_size (drop offset content))

-- The rules allow the requests that a download of a file of so many bytes makes from an offset.
abbrev pub AreAllowed : ℕ → ℕ → Type 0
AreAllowed size offset =
    (j : ℕ) → offset + j * part_size < size → is_allowed (offset + j * part_size) ≡ true

AreAllowed-first :
    (size offset : ℕ) → offset < size → AreAllowed size offset → is_allowed offset ≡ true
AreAllowed-first size offset h allowed =
    let e : offset + 0 * part_size ≡ offset = omega arith in rw e at (allowed 0 (omega (arith, h)))

AreAllowed-next : (size offset : ℕ) → AreAllowed size offset → AreAllowed size (offset + part_size)
AreAllowed-next size offset allowed j h =
    let e : offset + part_size + j * part_size ≡ offset + suc j * part_size = omega arith in
    rw e (allowed (suc j) (omega (arith, h)))

fetch_loop-honest :
    (fuel : ℕ) (content : Text) (offset : ℕ) (out : Text)
    → offset < length content
    → AreAllowed (length content) offset
    → length content - offset < fuel
    → fetch_loop fuel (honest content) (length content) offset out
      ≡ (out ++ drop offset content, none)
unfolding fetch_loop part
fetch_loop-honest zero content offset out h allowed f = absurd (omega arith)
fetch_loop-honest (suc fuel) content offset out h allowed f =
    let answer : is_allowed offset ≡ true = AreAllowed-first (length content) offset h allowed in
    elim (Bool-cases (length (part content offset) == 0)) [
      | inl e ↦ rw (answer, e, fetch_loop, part-nil content offset e, append-nil) refl
      | inr e ↦ elim (Bool-cases (last_part (length content) offset (part content offset))) [
        | inl l ↦
            rw (answer, e, fetch_loop, beq_refl (length (part content offset)), l)
              (ap (λ b. (out ++ b, none)) (part-last content offset l))
        | inr l ↦
            let (full, within) = part-more content offset h l in
            rw (answer, e, fetch_loop, beq_refl (length (part content offset)), l)
              (fetch_loop-honest fuel content (offset + length (part content offset))
                  (out ++ part content offset) within
                  (rw full (AreAllowed-next (length content) offset allowed))
                  (omega (arith, f, h, full, part_size_pos))
                ∙ ap (λ b. (b, none))
                    (append_assoc out _ _ ∙ ap (out ++◌) (part-drop content offset full)))
      ]
    ]

-- From a server that keeps to the rules of a precise `upload.getFile` (the offset divisible by a
-- KiB, the part within one block of a MiB), with a writer that takes everything and a context that
-- stays, a download from an offset below the size of the file, from which these rules allow every
-- part, ends without an error in at most as many rounds as bytes are missing and one, and delivers
-- exactly the bytes behind the offset.
pub download_from_offset-honest :
    (fuel : ℕ) (content : Text) (offset : ℕ)
    → offset < length content
    → AreAllowed (length content) offset
    → length content - offset < fuel
    → download_from_offset fuel (honest content) (length content) offset
      ≡ (drop offset content, none)
unfolding download_from_offset
download_from_offset-honest fuel content offset h allowed f =
    ground (arith, h, fetch_loop-honest fuel content offset [] h allowed f)

-- From a length that the rules do not allow, nothing comes.
pub download_from_offset-refused :
    (fuel : ℕ) (content : Text) (offset : ℕ)
    → offset < length content
    → is_allowed offset ≡ false
    → download_from_offset (suc fuel) (honest content) (length content) offset
      ≡ ([], some get_chunk)
unfolding download_from_offset fetch_loop
download_from_offset-refused fuel content offset h q =
    let first : (ltb 0 (length content) && leb (length content) offset) ≡ false =
      ground (arith, h) in
    rw (first, fetch_loop, q) refl
