-- ===== src/Write/Member/Headers.antt =====
-- The headers that `build_header_into` fills keep the length of a block.
use tar_codec.Base.{
  ℕ, suc, ◌+◌, ◌-◌, ◌≤◌, ◌≡◌, inl, inr, refl, sym, ap, ◌∙◌, Bool, true, false, not, none, some, [],
  ◌∷◌, ◌++◌, arith, Bytes, length, length-append, length-take, length-drop, take, drop, leb, leb→le,
  ◌==◌, if◌then◌else◌, Bool-cases, and_then-eq-some, ok, ok_or, fail_if, >>=-eq-ok, ok_injective,
  some-injective,
}
use tar_codec.Header.{
  range, field, write_at, block_size, checksum_range, checksum, mode_range, uid_range, gid_range,
  size_range, mtime_range, devmajor_range, ustar_identity, encode_octal, encode_checksum,
  encode_octal_with_suffix, octal_digits,
}
use tar_codec.Header.Octal.{
  encode_octal_fits, encode_octal_lem, encode_octal_with_suffix_lem, length-octal_digits,
}
use tar_codec.Header.Checksum.{length-field}
use tar_codec.Write.Records.Length.{ok_or-eq-ok}
use tar_codec.Write.Member.{put_octal, put_numbers, put_names, build_header_into}

length-write_at :
    (block : Bytes) (at : ℕ) (new : Bytes)
    → at + length new ≤ length block
    → length (write_at block at new) ≡ length block
length-write_at block at new h =
    length-append (take at block) (new ++ drop (at + length new) block)
    ∙ omega (
      arith,
      length-take at block,
      length-append new (drop (at + length new) block),
      length-drop (at + length new) block,
    )

length-encode_octal :
    (bytes : Bytes) (value : ℕ)
    → (encode_octal bytes value).1 ≡ true
    → length (encode_octal bytes value).0 ≡ length bytes
length-encode_octal bytes value fits =
    let n = length bytes - 2 in
    let room = (encode_octal_fits bytes value).0 fits in
    let two_more : length bytes ≡ suc (suc n) = omega (arith, room.0) in
    ap (λ p. length p.0) (encode_octal_lem bytes value n two_more)
    ∙ length-append (octal_digits (suc n) value).0 (0 ∷ [])
    ∙ omega (arith, length-octal_digits (suc n) value, two_more)

if-eq-some {ℓ} :
    {A : Type ℓ} (test : Bool) (a : A) {b : A}
    → (if test then some a else none) ≡ some b
    → (test ≡ true) × (a ≡ b)
if-eq-some true a e = (refl, some-injective _ _ e)
if-eq-some false a e = cc

put_octal_lem :
    (a b value : ℕ) (block : Bytes)
    → put_octal (range a b) value block ≡ (
        if (encode_octal (field block (range a b)) value).1
        then some (write_at block a (encode_octal (field block (range a b)) value).0)
        else none)
unfolding put_octal
put_octal_lem a b value block = refl

-- Writing a number keeps the block's length.
length-put_octal :
    (a b value : ℕ) (block next : Bytes)
    → a ≤ b
    → b ≤ length block
    → put_octal (range a b) value block ≡ some next
    → length next ≡ length block
length-put_octal a b value block next le fits e =
    let written = encode_octal (field block (range a b)) value in
    let (ok_bit, same) =
      if-eq-some written.1 (write_at block a written.0) (sym (put_octal_lem a b value block) ∙ e) in
    let size =
      length-encode_octal (field block (range a b)) value ok_bit ∙ length-field block a b le fits in
    ap length (sym same) ∙ length-write_at block a written.0 (omega (arith, size, le, fits))

length-put_numbers :
    (mode size : ℕ) (block next : Bytes)
    → length block ≡ block_size
    → put_numbers mode size block ≡ some next
    → length next ≡ block_size
unfolding put_numbers
length-put_numbers mode size block next whole e =
    let (b₁, e₁, r₁) = and_then-eq-some (put_octal mode_range mode block) _ e in
    let (b₂, e₂, r₂) = and_then-eq-some (put_octal uid_range 0 b₁) _ r₁ in
    let (b₃, e₃, r₃) = and_then-eq-some (put_octal gid_range 0 b₂) _ r₂ in
    let (b₄, e₄, r₄) = and_then-eq-some (put_octal size_range size b₃) _ r₃ in
    let (b₅, e₅, r₅) = and_then-eq-some (put_octal mtime_range 0 b₄) _ r₄ in
    let (b₆, e₆, r₆) = and_then-eq-some (put_octal devmajor_range 0 b₅) _ r₅ in
    let s₁ =
      length-put_octal 100 108 mode block b₁ (omega arith) (omega (arith, whole)) e₁ ∙ whole in
    let s₂ = length-put_octal 108 116 0 b₁ b₂ (omega arith) (omega (arith, s₁)) e₂ ∙ s₁ in
    let s₃ = length-put_octal 116 124 0 b₂ b₃ (omega arith) (omega (arith, s₂)) e₃ ∙ s₂ in
    let s₄ = length-put_octal 124 136 size b₃ b₄ (omega arith) (omega (arith, s₃)) e₄ ∙ s₃ in
    let s₅ = length-put_octal 136 148 0 b₄ b₅ (omega arith) (omega (arith, s₄)) e₅ ∙ s₄ in
    let s₆ = length-put_octal 329 337 0 b₅ b₆ (omega arith) (omega (arith, s₅)) e₆ ∙ s₅ in
    length-put_octal 337 345 0 b₆ next (omega arith) (omega (arith, s₆)) r₆ ∙ s₆

length-encode_checksum :
    (block : Bytes) → length block ≡ block_size → length (encode_checksum block) ≡ block_size
length-encode_checksum block whole =
    let area = field block checksum_range in
    let stored = encode_octal_with_suffix area (checksum block) (0 ∷ b' ' ∷ []) in
    let size : length stored.0 ≡ 8 =
      ap (λ p. length p.0)
        (encode_octal_with_suffix_lem area (checksum block) 5 (0 ∷ b' ' ∷ [])
          (length-field block 148 156 (omega arith) (omega (arith, whole))))
      ∙ length-append (octal_digits 6 (checksum block)).0 _
      ∙ omega (arith, length-octal_digits 6 (checksum block)) in
    unfold encode_checksum in
    (length-write_at block 148 stored.0 (omega (arith, size, whole)) ∙ whole)

length-put_names :
    (block prefix name link_path : Bytes)
    → length block ≡ block_size
    → length prefix ≤ 155
    → length name ≤ 100
    → length (put_names block prefix name link_path) ≡ block_size
length-put_names block prefix name link_path whole short_prefix short_name =
    let named = write_at block 0 name in
    let s₁ = length-write_at block 0 name (omega (arith, whole)) ∙ whole in
    let s₂ = length-write_at named 345 prefix (omega (arith, s₁)) ∙ s₁ in
    elim (Bool-cases (leb (length link_path) 100)) [
      | inl fits ↦ rw fits (
          length-write_at (write_at named 345 prefix) 157 link_path
            (omega (arith, s₂, leb→le (length link_path) 100 fits))
          ∙ s₂)
      | inr long ↦ rw long s₂
    ]

-- A header is a block.
pub length-build_header_into :
    (block prefix name link_path out : Bytes) (mode size typeflag : ℕ)
    → length block ≡ block_size
    → length prefix ≤ 155
    → length name ≤ 100
    → build_header_into block (prefix, name) mode size typeflag link_path ≡ ok out
    → length out ≡ block_size
unfolding build_header_into
length-build_header_into block prefix name link_path out mode size typeflag whole p n e =
    let (checked, e₁, r₁) = >>=-eq-ok (fail_if (not (length block == block_size)) _) _ e in
    let (numbered, e₂, r₂) =
      >>=-eq-ok (ok_or (put_numbers mode size (put_names block prefix name link_path)) _) _ r₁ in
    let s₁ =
      length-put_numbers mode size (put_names block prefix name link_path) numbered
        (length-put_names block prefix name link_path whole p n) (ok_or-eq-ok _ _ e₂) in
    let s₂ = length-write_at numbered 156 (typeflag ∷ []) (omega (arith, s₁)) ∙ s₁ in
    let s₃ =
      length-write_at (write_at numbered 156 (typeflag ∷ [])) 257 ustar_identity (omega (arith, s₂))
      ∙ s₂ in
    ap length (sym (ok_injective _ out r₂))
    ∙ length-encode_checksum (write_at (write_at numbered 156 (typeflag ∷ [])) 257 ustar_identity)
        s₃
