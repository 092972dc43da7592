-- ===== src/Pax/Total.antt =====
-- crates/tar-framing/src/pax.rs: the loop of `PaxRecords::parse` ends, and its slices are in range.
use tar_codec.Base.{
  ℕ, zero, suc, ◌+◌, ◌-◌, ◌≤◌, ◌<◌, ◌≡◌, ◌≢◌, ◌⊎◌, inl, inr, refl, ap, subst, Bool, true, false,
  none, some, [], ◌∷◌, arith, Bytes, length, take, drop, length-take, length-drop, position, ◌==◌,
  Bool-cases, Option-cases, Result-cases, All, ◌*◌, ok,
}
use tar_codec.Text.{last, digits_loop}
use tar_codec.Pax.{HdrCharset}
use tar_codec.Pax.Parse.{decimal_u64, frame_record, split_records, parse}

abbrev ends_record : Bytes → Bool
ends_record bytes = elim (last bytes) [ none ↦ false | some b ↦ b == b'\n' ]

-- What a framed record satisfies: where its space is, its length, and its last byte.
pub record IsFramed (rest : Bytes) (content_start : ℕ) (bytes : Bytes) : Type 0 where
  pub space : ℕ
  pub record_len : ℕ
  pub found : position b' ' rest ≡ some space
  pub starts : content_start ≡ space + 1
  pub counted : decimal_u64 (take space rest) ≡ some record_len
  pub within : record_len ≤ length rest
  pub is_prefix : bytes ≡ take record_len rest
  pub ends : ends_record bytes ≡ true

frame_record-IsFramed :
    (cursor : ℕ) (rest : Bytes) (content_start : ℕ) (bytes : Bytes)
    → frame_record cursor rest ≡ ok (content_start, bytes)
    → IsFramed rest content_start bytes
unfolding frame_record
frame_record-IsFramed cursor rest content_start bytes e = elim (Option-cases (position b' ' rest)) [
  | inl lost ↦ absurd (ground arith)
  | inr (space, found) ↦ elim (Option-cases (decimal_u64 (take space rest))) [
    | inl lost ↦ absurd (ground arith)
    | inr (record_len, counted) ↦ record {
      space = space;
      record_len = record_len;
      found = found;
      starts = ground arith;
      counted = counted;
      within = ground arith;
      is_prefix = ground arith;
      ends = ground arith;
    }
  ]
]

-- A record takes a byte at least, and no more than there are.
framed_length :
    {rest : Bytes} {content_start : ℕ} {bytes : Bytes}
    → IsFramed rest content_start bytes
    → (0 < length bytes) × (length bytes ≤ length rest)
framed_length {rest} {content_start} {bytes} f = (
  nonempty bytes f.ends,
  omega (arith, ap length f.is_prefix, length-take f.record_len rest, f.within),
)
  where
    nonempty : (bs : Bytes) → ends_record bs ≡ true → 0 < length bs
    nonempty [] e = cc
    nonempty (b ∷ bs) e = omega arith

-- The loop of `PaxRecords::parse` ends: as many rounds as there are bytes are fuel enough.
split_records-ne-none :
    (fuel cursor : ℕ) (rest : Bytes) → length rest ≤ fuel → split_records fuel cursor rest ≢ none
unfolding split_records
split_records-ne-none fuel cursor [] h = λ e. cc
split_records-ne-none zero cursor (b ∷ bs) h = absurd (omega arith)
split_records-ne-none (suc fuel) cursor (b ∷ bs) h =
    elim (Result-cases (frame_record cursor (b ∷ bs))) [
      | inl ((content_start, bytes), framed) ↦
          let shorter =
            framed_length (frame_record-IsFramed cursor (b ∷ bs) content_start bytes framed) in
          ground (
            arith,
            split_records-ne-none fuel (cursor + length bytes) (drop (length bytes) (b ∷ bs))
                (omega (arith, shorter, length-drop (length bytes) (b ∷ bs))),
          )
      | inr (x, refused) ↦ λ e. ground arith
    ]

-- `PaxRecords::parse` always returns: the fuel of its loop, the length of the payload, never runs
-- out.
pub parse-ne-none : (payload : Bytes) (inherited : HdrCharset) → parse payload inherited ≢ none
unfolding parse
parse-ne-none [] inherited = λ e. cc
parse-ne-none (b ∷ bs) inherited =
    let total = split_records-ne-none (length (b ∷ bs)) 0 (b ∷ bs) (omega arith) in ground arith

abbrev AllDigits : Bytes → Type 0
AllDigits = All (λ b. (b'0' ≤ b) × (b ≤ b'9'))

digits_loop-AllDigits : (bytes : Bytes) (v w : ℕ) → digits_loop bytes v ≡ some w → AllDigits bytes
unfolding digits_loop
digits_loop-AllDigits [] v w e = tt
digits_loop-AllDigits (b ∷ bs) v w e =
    ground (arith, digits_loop-AllDigits bs (v * 10 + (b - b'0')) w)

decimal_u64-AllDigits : (bytes : Bytes) (v : ℕ) → decimal_u64 bytes ≡ some v → AllDigits bytes
decimal_u64-AllDigits [] v e = tt
decimal_u64-AllDigits (b ∷ bs) v e =
    digits_loop-AllDigits (b ∷ bs) 0 v (unfold decimal_u64 in ground arith)

not_newline :
    (b : ℕ) (bs : Bytes) → b ≢ b'\n' → ends_record bs ≡ false → ends_record (b ∷ bs) ≡ false
not_newline b [] h e = ground arith
not_newline b (c ∷ cs) h e = e

-- No newline stands among the digits or at the space.
ends_after_space :
    (rest : Bytes) (space n : ℕ)
    → position b' ' rest ≡ some space
    → AllDigits (take space rest)
    → n ≤ space + 1
    → ends_record (take n rest) ≡ false
unfolding position
ends_after_space [] space n e d h = cc
ends_after_space (b ∷ bs) space zero e d h = refl
ends_after_space (b ∷ bs) space (suc n) e d h = elim (Bool-cases (b == b' ')) [
  | inl is ↦ let n0 : n ≡ 0 = ground arith in rw n0 (not_newline b [] (ground arith) refl)
  | inr other ↦ elim (Option-cases (position b' ' bs)) [
    | inl lost ↦ absurd (ground arith)
    | inr (i, found) ↦
        let after : space ≡ suc i = ground arith in
        let d' = subst (λ k. AllDigits (take k (b ∷ bs))) after d in
        not_newline b (take n bs) (λ e'. omega arith)
          (ends_after_space bs i n found d'.1 (omega arith))
  ]
]

le_or_lt : (a b : ℕ) → (a ≤ b) ⊎ (b < a)
le_or_lt a b = omega arith

-- The slice of keyword and value, `content_start..len - 1`, is in range: it does not panic.
pub frame_record-slices :
    (cursor : ℕ) (rest : Bytes) (content_start : ℕ) (bytes : Bytes)
    → frame_record cursor rest ≡ ok (content_start, bytes)
    → (content_start ≤ length bytes - 1) × (1 ≤ length bytes) × (length bytes ≤ length rest)
frame_record-slices cursor rest content_start bytes e = elim (le_or_lt f.record_len (f.space + 1)) [
  | inl short ↦
      let digits = decimal_u64-AllDigits (take f.space rest) f.record_len f.counted in
      absurd (
        cc (
          f.ends,
          ap ends_record f.is_prefix,
          ends_after_space rest f.space f.record_len f.found digits short,
        ))
  | inr long ↦ (
    omega (arith, f.starts, f.within, ap length f.is_prefix, length-take f.record_len rest, long),
    omega (arith, framed_length f),
    omega (arith, framed_length f),
  )
]
  where
    f : IsFramed rest content_start bytes
    f = frame_record-IsFramed cursor rest content_start bytes e
