-- ===== src/Write/Member/Framed.antt =====
-- The whole of what `frame_pax_member_into` writes: blocks, and between the two headers the records.
use tar_codec.Base.{
  ℕ, ◌+◌, ◌-◌, ◌*◌, ◌%◌, ◌≤◌, ◌<◌, ◌≡◌, ◌⊎◌, inl, inr, refl, sym, ap, ◌∙◌, Option, none, some, [],
  ◌∷◌, ◌++◌, arith, append_assoc, Bytes, IsU64, length, length-append, length-take, length-drop,
  length-replicate, take, drop, drop-append, replicate, if◌then◌else◌, checked_add, ok, ok_or,
  >>=-eq-ok, ok_injective,
}
use tar_codec.Text.{codes}
use tar_codec.Stream.Payload.{take-append_split}
use tar_codec.Header.{block_size}
use tar_codec.Pax.{HdrCharset}
use tar_codec.Pax.Parse.{parse}
use tar_codec.Write.{PaxMember}
use tar_codec.Write.Decimal as Render
use tar_codec.Write.Decimal.Digits.{decimal_u64-IsDecimal}
use tar_codec.Write.Records.Length.{ok_or-eq-ok, pow_le, le_or_lt, checked-eq-some}
use tar_codec.Write.Member.Paths.{IsSplit, split_ustar_path-IsSplit}
use tar_codec.Write.Member.{
  build_header_into, padded_payload_len, finish_member, member_records, frame_pax_member_into,
  validate_member, member_path, split_ustar_path, prefixed_decimal_name, mode_and_typeflag,
  fits_octal, unwrap_or_empty,
}
use tar_codec.Write.Member.Sizes.{padded_payload_len-block_size}
use tar_codec.Write.Member.Records.{IsMember, expected_records, member_records-parse}
use tar_codec.Write.Member.Headers.{length-build_header_into}

digits_short : (n : ℕ) → IsU64 n → length (Render.decimal_u64 n) ≤ 20
digits_short n fits =
    let d = decimal_u64-IsDecimal n in
    elim (d.no_leading_zero) [
      | inl nought ↦ omega (arith, d.has_width, nought.1)
      | inr least ↦ elim (le_or_lt d.width 19) [
        | inl le ↦ omega (arith, d.has_width)
        | inr lt ↦ absurd (omega (arith, pow_le 20 d.width lt, least))
      ]
    ]

member_path-none :
    (sequence : ℕ) (path : Bytes)
    → split_ustar_path path ≡ none
    → member_path sequence path ≡ ([], codes "PaxEntries/" ++ Render.decimal_u64 sequence)
unfolding member_path prefixed_decimal_name
member_path-none sequence path e =
    ap
      (λ o. elim o as (λ _. Bytes × Bytes) [
        | none ↦ ([], codes "PaxEntries/" ++ Render.decimal_u64 sequence)
        | some split ↦ split
      ])
      e

member_path-some :
    (sequence : ℕ) (path : Bytes) (split : Bytes × Bytes)
    → split_ustar_path path ≡ some split
    → member_path sequence path ≡ split
unfolding member_path prefixed_decimal_name
member_path-some sequence path split e =
    ap
      (λ o. elim o as (λ _. Bytes × Bytes) [
        | none ↦ ([], codes "PaxEntries/" ++ Render.decimal_u64 sequence)
        | some split ↦ split
      ])
      e

extended_name_fits :
    (sequence : ℕ)
    → IsU64 sequence
    → length (prefixed_decimal_name (codes "PaxHeaders/") sequence) ≤ 100
unfolding prefixed_decimal_name
extended_name_fits sequence fits = omega (
  arith,
  length-append (codes "PaxHeaders/") (Render.decimal_u64 sequence),
  digits_short sequence fits,
)

-- The name and the prefix of a member's header fit their fields.
member_path_fits :
    (sequence : ℕ) (path : Bytes)
    → IsU64 sequence
    → (length (member_path sequence path).0 ≤ 155) × (length (member_path sequence path).1 ≤ 100)
member_path_fits sequence path fits = go (split_ustar_path path) refl
  where
    go :
        (split : Option (Bytes × Bytes))
        → split_ustar_path path ≡ split
        → (length (member_path sequence path).0 ≤ 155)
          × (length (member_path sequence path).1 ≤ 100)
    go none e = rw (member_path-none sequence path e) (
      omega arith,
      omega (
        arith,
        length-append (codes "PaxEntries/") (Render.decimal_u64 sequence),
        digits_short sequence fits,
      ),
    )
    go (some (prefix, name)) e =
        rw (member_path-some sequence path (prefix, name) e)
          (split_fits (split_ustar_path-IsSplit path prefix name e))
      where
        split_fits :
            ((prefix ≡ []) × (name ≡ path) × (length path ≤ 100)) ⊎ IsSplit path prefix name
            → (length prefix ≤ 155) × (length name ≤ 100)
        split_fits (inl (none_there, all, short)) =
            (omega (arith, ap length none_there), omega (arith, ap length all))
        split_fits (inr s) = (s.prefix_fits, s.name_fits)

take-length : (xs : Bytes) → take (length xs) xs ≡ xs
take-length [] = refl
take-length (x ∷ xs) = ap (λ t. x ∷ t) (take-length xs)

-- What `finish_member` makes of the records.
pub record IsFramed (payload out : Bytes) : Type 0 where
  pub extended_header : Bytes
  pub padding : Bytes
  pub member_header : Bytes
  pub parts : out ≡ extended_header ++ ((payload ++ padding) ++ member_header)
  pub extended_size : length extended_header ≡ block_size
  pub member_size : length member_header ≡ block_size
  pub padded : (length (payload ++ padding) % block_size ≡ 0) × (length padding < block_size)

finish_member-IsFramed :
    (sequence : ℕ) (member : PaxMember) (payload out : Bytes)
    → IsU64 sequence
    → finish_member sequence member (replicate block_size 0 ++ payload) ≡ ok out
    → IsFramed payload out
unfolding finish_member
finish_member-IsFramed sequence member payload out fits e =
    let records = replicate block_size 0 ++ payload in
    let (padded, e₁, r₁) = >>=-eq-ok (padded_payload_len (length records - block_size)) _ e in
    let (kind, e₂, r₂) = >>=-eq-ok (mode_and_typeflag member member.kind) _ r₁ in
    let (framing_len, e₃, r₃) = >>=-eq-ok (ok_or (checked_add padded (block_size * 2)) _) _ r₂ in
    let zeros = replicate (framing_len - length records) 0 in
    let buffer = records ++ zeros in
    let (header, e₄, r₄) =
      >>=-eq-ok
        (build_header_into (take block_size buffer)
          ([], prefixed_decimal_name (codes "PaxHeaders/") sequence) 420
          (length records - block_size) b'x' [])
        _ r₃ in
    let (member_header, e₅, r₅) =
      >>=-eq-ok
        (build_header_into (drop padded (drop block_size buffer)) (member_path sequence member.path)
          kind.0 (if fits_octal 12 member.size then member.size else 0) kind.1
          (unwrap_or_empty member.link_path))
        _ r₄ in
    let total : framing_len ≡ padded + 1024 =
      (checked-eq-some (padded + 1024) framing_len (ok_or-eq-ok _ _ e₃)).0 in
    let records_size : length records ≡ 512 + length payload =
      length-append (replicate block_size 0) payload in
    let multiple = padded_payload_len-block_size (length records - block_size) padded e₁ in
    let zeros_size : length zeros ≡ padded + 512 - length payload =
      length-replicate {A = ℕ} (framing_len - length records) 0
      ∙ omega (arith, total, records_size) in
    let buffer_size : length buffer ≡ padded + 1024 =
      length-append records zeros ∙ omega (arith, zeros_size, records_size, multiple.1) in
    let rest : drop block_size buffer ≡ payload ++ zeros =
      ap (drop block_size) (append_assoc (replicate block_size 0) payload zeros)
      ∙ drop-append block_size (replicate block_size 0) (payload ++ zeros) refl in
    let padding = take (padded - length payload) zeros in
    let cut : take padded (drop block_size buffer) ≡ payload ++ padding =
      ap (take padded) rest
      ∙ take-append_split padded (length payload) (padded - length payload) payload zeros
          (omega (arith, records_size, multiple.1)) (omega arith) (inl refl)
      ∙ ap (λ t. t ++ padding) (take-length payload) in
    let padding_size : length padding ≡ padded - length payload =
      length-take (padded - length payload) zeros ∙ omega (arith, zeros_size) in
    let path_fits = member_path_fits sequence member.path fits in
    record {
      extended_header = header;
      padding = padding;
      member_header = member_header;
      parts = sym (ok_injective _ out r₅) ∙ ap (λ t. header ++ (t ++ member_header)) cut;
      extended_size =
          length-build_header_into (take block_size buffer) []
            (prefixed_decimal_name (codes "PaxHeaders/") sequence) [] header 420
            (length records - block_size) b'x'
            (length-take block_size buffer ∙ omega (arith, buffer_size)) (omega arith)
            (extended_name_fits sequence fits) e₄;
      member_size =
          length-build_header_into (drop padded (drop block_size buffer)) _ _
            (unwrap_or_empty member.link_path) member_header kind.0
            (if fits_octal 12 member.size then member.size else 0) kind.1
            (length-drop padded (drop block_size buffer)
              ∙ omega (arith, length-drop block_size buffer, buffer_size))
            path_fits.0 path_fits.1 e₅;
      padded = (
        omega (arith, length-append payload padding, padding_size, multiple, records_size),
        omega (arith, padding_size, multiple, records_size),
      );
    }

-- What `frame_pax_member_into` writes, where it succeeds: an extended header of one block, records
-- padded to whole blocks by less than a block, and the member's header of one block. The records
-- parse, with the charset that applies by default, to exactly the member's path, its size and the
-- target of its link if it has one. The sequence number and the size are `u64`s, and the path and
-- the target are UTF-8 and not empty.
pub frame_pax_member_into-parse :
    (sequence : ℕ) (member : PaxMember) (out : Bytes)
    → IsU64 sequence
    → IsMember member
    → frame_pax_member_into sequence member ≡ ok out
    → (payload : Bytes) × IsFramed payload out
      × (parse payload HdrCharset.utf8 ≡ some (ok (expected_records member)))
unfolding frame_pax_member_into
frame_pax_member_into-parse sequence member out fits m e =
    let (checked, e₁, r₁) = >>=-eq-ok (validate_member member) _ e in
    let (records, e₂, r₂) = >>=-eq-ok (member_records member) _ r₁ in
    let (payload, same, parsed) = member_records-parse member records m e₂ in
    (
      payload,
      finish_member-IsFramed sequence member payload out fits
          (ap (finish_member sequence member) (sym same) ∙ r₂),
      parsed,
    )
