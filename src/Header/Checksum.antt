-- ===== src/Header/Checksum.antt =====
-- The checksum of a header block: its bound, and that `encode_checksum` stores it.
use tar_codec.Base.{
  ℕ, zero, suc, ◌+◌, ◌-◌, ◌*◌, ◌≤◌, ◌≡◌, refl, sym, ap, ◌∙◌, some, List, [], ◌∷◌, ◌++◌,
  append_assoc, arith, Bytes, IsByte, All, All-take, All-drop, length, take, drop, length-take,
  length-drop, length-append, take-append, drop-append, take-append-drop,
}
use tar_codec.Header.{
  range, field, checksum_range, block_size, max_checksum, sum, checksum, octal_digits,
  encode_checksum, parse_octal,
}
use tar_codec.Header.Octal.{
  length-octal_digits, encode_octal_with_suffix_lem, octal_loop-octal_digits,
}

pub sum-append : (xs ys : Bytes) → sum (xs ++ ys) ≡ sum xs + sum ys
sum-append [] ys = omega arith
sum-append (x ∷ xs) ys = omega (arith, sum-append xs ys)

pub sum-le : (xs : Bytes) → All IsByte xs → sum xs ≤ 255 * length xs
sum-le [] h = omega arith
sum-le (x ∷ xs) h = omega (arith, sum-le xs h.1)

pub drop-drop {ℓ} :
    {A : Type ℓ} (n m k : ℕ) (xs : List A) → n + m ≡ k → drop m (drop n xs) ≡ drop k xs
drop-drop zero m k xs e = let e' : m ≡ k = omega arith in ap (λ i. drop i xs) e'
drop-drop (suc n) m zero xs e = absurd (omega arith)
drop-drop (suc n) zero (suc k) [] e = refl
drop-drop (suc n) (suc m) (suc k) [] e = refl
drop-drop (suc n) m (suc k) (x ∷ xs) e = drop-drop n m k xs (omega arith)

-- A block, cut at the ends of a field.
pub field_split :
    (block : Bytes) (a b : ℕ)
    → a ≤ b
    → block ≡ take a block ++ (field block (range a b) ++ drop b block)
field_split block a b h =
    sym (take-append-drop a block)
    ∙ ap (λ t. take a block ++ t)
        (sym (take-append-drop (b - a) (drop a block))
          ∙ ap (λ t. take (b - a) (drop a block) ++ t) (drop-drop a (b - a) b block (omega arith)))

-- The field is what stands between a front and a back of the right lengths.
pub field-append :
    (front mid back : Bytes) (a b : ℕ)
    → length front ≡ a
    → length mid + a ≡ b
    → field (front ++ (mid ++ back)) (range a b) ≡ mid
field-append front mid back a b h e =
    ap (take (b - a)) (drop-append a front (mid ++ back) h)
    ∙ take-append (b - a) mid back (omega arith)

pub length-field :
    (block : Bytes) (a b : ℕ) → a ≤ b → b ≤ length block → length (field block (range a b)) ≡ b - a
length-field block a b h fits =
    length-take (b - a) (drop a block) ∙ omega (arith, length-drop a block)

-- The checksum does not read its own field.
checksum-append :
    (front mid back : Bytes)
    → length front ≡ 148
    → length mid ≡ 8
    → checksum (front ++ (mid ++ back)) ≡ sum front + sum back + 256
unfolding checksum
checksum-append front mid back h e =
    rw (field-append front mid back 148 156 h (omega arith))
      (omega (arith, sum-append front (mid ++ back), sum-append mid back))

module _ (block : Bytes) (whole : length block ≡ block_size) where
  front : Bytes
  front = take 148 block

  back : Bytes
  back = drop 156 block

  cut : block ≡ front ++ (field block checksum_range ++ back)
  unfolding front back
  cut = field_split block 148 156 (omega arith)

  length-front : length front ≡ 148
  unfolding front
  length-front = length-take 148 block ∙ omega arith

  length-back : length back ≡ 356
  unfolding back
  length-back = length-drop 156 block ∙ omega arith

  checksum-cut : checksum block ≡ sum front + sum back + 256
  checksum-cut =
      ap checksum cut
      ∙ checksum-append front _ back length-front
          (length-field block 148 156 (omega arith) (omega arith))

  -- The checksum of a block of bytes stays within `MAX_CHECKSUM`, so within six octal digits, and
  -- the subtraction in it does not stop at 0.
  pub checksum-le-max_checksum :
      All IsByte block
      → (checksum block ≤ max_checksum) × (sum (field block checksum_range) ≤ sum block)
  unfolding front back
  checksum-le-max_checksum bytes = (
    omega (
      arith,
      checksum-cut,
      length-front,
      length-back,
      sum-le (take 148 block) (All-take IsByte 148 block bytes),
      sum-le (drop 156 block) (All-drop IsByte 156 block bytes),
    ),
    omega (
      arith,
      ap sum cut,
      sum-append front (field block checksum_range ++ back),
      sum-append (field block checksum_range) back,
    ),
  )

  stored : Bytes
  stored = (octal_digits 6 (checksum block)).0 ++ 0 ∷ b' ' ∷ []

  length-stored : length stored ≡ 8
  unfolding stored
  length-stored =
      length-append (octal_digits 6 (checksum block)).0 _
      ∙ omega (arith, length-octal_digits 6 (checksum block))

  encode_checksum_cut : encode_checksum block ≡ front ++ (stored ++ back)
  unfolding encode_checksum stored front back
  encode_checksum_cut =
      rw
        (encode_octal_with_suffix_lem (field block checksum_range) (checksum block) 5
          (0 ∷ b' ' ∷ []) (length-field block 148 156 (omega arith) (omega arith)))
        (ap (λ n. take 148 block ++ (stored ++ drop n block)) ends)
    where
      ends : 148 + length stored ≡ 156
      ends = omega (arith, length-stored)

  parse_octal-stored : All IsByte block → parse_octal stored ≡ some (checksum block)
  unfolding stored parse_octal
  parse_octal-stored bytes =
      let bound = (checksum-le-max_checksum bytes).0 in
      octal_loop-octal_digits 6 (checksum block) (0 ∷ b' ' ∷ []) (omega arith) (omega arith)

  -- After `encode_checksum` the stored checksum reads back as the checksum of the block, as a
  -- reader of the header asks; the block keeps its length, its checksum, and all that stands
  -- before and behind the checksum field.
  pub encode_checksum-parse_octal :
      All IsByte block
      → (parse_octal (field (encode_checksum block) checksum_range)
          ≡ some (checksum (encode_checksum block)))
        × (checksum (encode_checksum block) ≡ checksum block)
        × (length (encode_checksum block) ≡ block_size)
        × (take 148 (encode_checksum block) ≡ take 148 block)
        × (drop 156 (encode_checksum block) ≡ drop 156 block)
  unfolding front back
  encode_checksum-parse_octal bytes = rw encode_checksum_cut (
    rw (field-append front stored back 148 156 length-front (omega (arith, length-stored)), same)
        (parse_octal-stored bytes),
    same,
    length-append front (stored ++ back)
        ∙ omega (arith, length-front, length-append stored back, length-stored, length-back),
    take-append 148 front (stored ++ back) length-front,
    ap (drop 156) (sym (append_assoc front stored back))
        ∙ drop-append 156 (front ++ stored) back
            (length-append front stored ∙ omega (arith, length-front, length-stored)),
  )
    where
      same : checksum (front ++ (stored ++ back)) ≡ checksum block
      same = checksum-append front stored back length-front length-stored ∙ sym checksum-cut
