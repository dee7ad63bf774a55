-- ===== src/Telegram/AccessHash.antt =====
-- pkg/telegram/update_storage.go: the access hashes of channels, in a bbolt bucket under the user's
-- and the channel's id. An `int64` is its 64 bits read as a number below 2 ^ 64, which is what
-- `uint64(v)` and `int64(v)` keep. The bucket is a parameter.
use tgdownloader.Prelude.{
  ℕ, zero, suc, ◌/◌, ◌%◌, ◌^◌, ◌<◌, ◌≡◌, refl, sym, ap, ◌∙◌, Bool-cases, inl, inr, Bool, true,
  false, ◌&&◌, Option, none, some, [], ◌∷◌, ◌++◌, Text, ◌==◌, nat_eq, nat_beq_iff, list_eq,
  list_beq_iff, if◌then◌else◌, arith,
}
use tgdownloader.Telegram.Store.{little_endian}

-- A bbolt bucket with values.
pub record ValueBucket (B : Type 0) : Type 0 where
  pub no_values : B
  pub put : B → Text → Text → B
  pub get : B → Text → Option Text
  pub get-no_values : (k : Text) → get no_values k ≡ none
  pub get-put : (b : B) (k j v : Text) → get (put b k v) j ≡ (if k == j then some v else get b j)

-- `binary.LittleEndian.PutUint64` for 8 bytes.
unfoldable pub put_little_endian : ℕ → ℕ → Text
put_little_endian zero v = []
put_little_endian (suc n) v = v % 256 ∷ put_little_endian n (v / 256)

unfoldable pub channel_access_hash_key : ℕ → ℕ → Text
unfolding put_little_endian
channel_access_hash_key user_id channel_id =
    put_little_endian 8 user_id ++ put_little_endian 8 channel_id

unfoldable pub int64_bytes : ℕ → Text
unfolding put_little_endian
int64_bytes v = put_little_endian 8 v

unfoldable pub bytes_int64 : Text → ℕ
unfolding little_endian
bytes_int64 b = little_endian b

module _ {B : Type 0} (bucket : ValueBucket B) where
  abbrev bucket_or_new : Option B → B
  bucket_or_new none = bucket.no_values
  bucket_or_new (some b) = b

  -- The argument says whether the transaction commits.
  unfoldable pub set_channel_access_hash : Bool → Option B → ℕ → ℕ → ℕ → Option B
  unfolding int64_bytes channel_access_hash_key
  set_channel_access_hash false db user_id channel_id access_hash = db
  set_channel_access_hash true db user_id channel_id access_hash = some (
      bucket.put (bucket_or_new db) (channel_access_hash_key user_id channel_id)
        (int64_bytes access_hash))

  unfoldable pub get_channel_access_hash : Option B → ℕ → ℕ → Option ℕ
  unfolding bytes_int64 channel_access_hash_key
  get_channel_access_hash none user_id channel_id = none
  get_channel_access_hash (some b) user_id channel_id =
      elim (bucket.get b (channel_access_hash_key user_id channel_id)) [
        | none ↦ none
        | some v ↦ some (bytes_int64 v)
      ]

-- The bytes of a number determine it.
little_endian-put_little_endian :
    (n v : ℕ) → v < 256 ^ n → little_endian (put_little_endian n v) ≡ v
unfolding little_endian put_little_endian
little_endian-put_little_endian zero v h = omega (arith, h)
little_endian-put_little_endian (suc n) v h =
    let b = 256 ^ n in omega (arith, little_endian-put_little_endian n (v / 256) (omega (arith, h)))

append_inj :
    (n u v : ℕ) (xs ys : Text)
    → put_little_endian n u ++ xs ≡ put_little_endian n v ++ ys
    → (put_little_endian n u ≡ put_little_endian n v) × (xs ≡ ys)
unfolding put_little_endian
append_inj zero u v xs ys h = (refl, h)
append_inj (suc n) u v xs ys h =
    let rest = append_inj n (u / 256) (v / 256) xs ys (ground (arith, h)) in ground (arith, h, rest)

key_inj :
    (n u c v d : ℕ)
    → u < 256 ^ n
    → c < 256 ^ n
    → v < 256 ^ n
    → d < 256 ^ n
    → put_little_endian n u ++ put_little_endian n c
      ≡ put_little_endian n v ++ put_little_endian n d
    → (u ≡ v) × (c ≡ d)
key_inj n u c v d hu hc hv hd q =
    let parts = append_inj n u v (put_little_endian n c) (put_little_endian n d) q in
    (
      sym (little_endian-put_little_endian n u hu)
          ∙ ap little_endian parts.0
          ∙ little_endian-put_little_endian n v hv,
      sym (little_endian-put_little_endian n c hc)
          ∙ ap little_endian parts.1
          ∙ little_endian-put_little_endian n d hd,
    )

key_beq :
    (n u c v d : ℕ)
    → u < 256 ^ n
    → c < 256 ^ n
    → v < 256 ^ n
    → d < 256 ^ n
    → (put_little_endian n u ++ put_little_endian n c
        == put_little_endian n v ++ put_little_endian n d)
      ≡ (u == v && c == d)
key_beq n u c v d hu hc hv hd =
    let same =
      list_beq_iff (put_little_endian n u ++ put_little_endian n c)
        (put_little_endian n v ++ put_little_endian n d) in
    let inj = key_inj n u c v d hu hc hv hd in
    elim (Bool-cases (u == v && c == d)) [
      | inl q ↦
          let p : u ≡ v = ground (arith, q, nat_beq_iff u v) in
          let r : c ≡ d = ground (arith, q, nat_beq_iff c d) in
          same.1 (λ i. put_little_endian n (p i) ++ put_little_endian n (r i)) ∙ sym q
      | inr q ↦ ground (arith, q, same, inj, nat_beq_iff u v, nat_beq_iff c d)
    ]

channel_access_hash_key-beq :
    (u c v d : ℕ)
    → u < 2 ^ 64
    → c < 2 ^ 64
    → v < 2 ^ 64
    → d < 2 ^ 64
    → (channel_access_hash_key u c == channel_access_hash_key v d) ≡ (u == v && c == d)
unfolding channel_access_hash_key
channel_access_hash_key-beq u c v d hu hc hv hd = key_beq 8 u c v d hu hc hv hd

bytes_int64-int64_bytes : (a : ℕ) → a < 2 ^ 64 → bytes_int64 (int64_bytes a) ≡ a
unfolding bytes_int64 int64_bytes
bytes_int64-int64_bytes a h = little_endian-put_little_endian 8 a h

-- Under an `int64` for each argument, an access hash is read back from the user and channel it was
-- stored for, and what is read for any other pair of user and channel is unchanged. A transaction
-- that does not commit changes nothing.
pub get_channel_access_hash-set_channel_access_hash :
    {B : Type 0} (bucket : ValueBucket B) (commits : Bool) (db : Option B) (u c a v d : ℕ)
    → u < 2 ^ 64
    → c < 2 ^ 64
    → a < 2 ^ 64
    → v < 2 ^ 64
    → d < 2 ^ 64
    → get_channel_access_hash bucket (set_channel_access_hash bucket commits db u c a) v d
      ≡ (if commits && (u == v && c == d) then some a else get_channel_access_hash bucket db v d)
unfolding get_channel_access_hash set_channel_access_hash
get_channel_access_hash-set_channel_access_hash bucket false db u c a v d hu hc ha hv hd = refl
get_channel_access_hash-set_channel_access_hash bucket true none u c a v d hu hc ha hv hd = ground (
  arith,
  channel_access_hash_key-beq u c v d hu hc hv hd,
  bytes_int64-int64_bytes a ha,
  bucket.get-put bucket.no_values (channel_access_hash_key u c) (channel_access_hash_key v d)
      (int64_bytes a),
  bucket.get-no_values (channel_access_hash_key v d),
)
get_channel_access_hash-set_channel_access_hash bucket true (some b) u c a v d hu hc ha hv hd =
    ground (
      arith,
      channel_access_hash_key-beq u c v d hu hc hv hd,
      bytes_int64-int64_bytes a ha,
      bucket.get-put b (channel_access_hash_key u c) (channel_access_hash_key v d) (int64_bytes a),
    )
