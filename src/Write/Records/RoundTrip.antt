-- ===== src/Write/Records/RoundTrip.antt =====
-- The records that write.rs appends, read by pax.rs.
use tar_codec.Base.{
  ℕ, zero, suc, ◌+◌, ◌≤◌, ◌<◌, ◌≡◌, ◌≢◌, inl, inr, refl, sym, ap, ◌∙◌, Bool, true, false, Option,
  none, some, List, [], ◌∷◌, ◌++◌, append_assoc, append-nil, arith, Bytes, IsU64, All, All-append,
  length, length-append, drop, drop-append, position, contains, ◌==◌, checked_add, ok, ◌>>=◌,
  fail_if, ok_or, ok_injective, Bool-cases, >>=-eq-ok,
}
use tar_codec.Text.{is_utf8, is_empty, last}
use tar_codec.Pax.{PaxKeyword, HdrCharset}
use tar_codec.Pax.Parse.{frame_record, split_record, split_records, parse_pairs, parse}
use tar_codec.Write.{Written, components}
use tar_codec.Write.Decimal as Render
use tar_codec.Write.Decimal.Digits.{decimal_u64-IsDecimal, u64_from_str-decimal_u64}
use tar_codec.Write.Records.{
  keyword_bytes, invalid_keyword, record_len, append_decimal_usize, append_record_with_len,
  append_pax_record,
}
use tar_codec.Write.Records.Length.{record_len-IsLength, checked-eq-some, ok_or-eq-ok}
use tar_codec.Write.Records.Framing.{
  last-append, record_bytes, IsWord, frame_record-digits, split_record-body,
}

split_records_step :
    (fuel cursor start : ℕ) (rest bytes : Bytes) (pair : Bytes × Bytes)
    (pairs : List (Bytes × Bytes))
    → frame_record cursor rest ≡ ok (start, bytes)
    → split_record start bytes ≡ ok pair
    → split_records fuel (cursor + length bytes) (drop (length bytes) rest) ≡ some (ok pairs)
    → split_records (suc fuel) cursor rest ≡ some (ok (pair ∷ pairs))
unfolding split_records
split_records_step fuel cursor start [] bytes pair pairs h₁ h₂ h₃ =
    unfold frame_record position in cc
split_records_step fuel cursor start (b ∷ bs) bytes pair pairs h₁ h₂ h₃ =
    rw (h₁, h₂, h₃, split_records)

-- A record is as long as it says.
length-record_bytes :
    (keyword : PaxKeyword) (value : Bytes) (len : ℕ)
    → record_len keyword value ≡ ok len
    → length (record_bytes keyword value len) ≡ len
length-record_bytes keyword value len e =
    let word = keyword_bytes (components keyword) in
    let tail = value ++ (b'\n' ∷ []) in
    length-append (Render.decimal_u64 len) (b' ' ∷ (word ++ (b'=' ∷ tail)))
    ∙ omega (
      arith,
      length-append word (b'=' ∷ tail),
      length-append value (b'\n' ∷ []),
      (record_len-IsLength keyword value len e).0,
    )

-- A record that was appended begins the payload: the parser takes it off and goes on behind it.
split_records-record_bytes :
    (fuel cursor len : ℕ) (keyword : PaxKeyword) (value rest : Bytes) (pairs : List (Bytes × Bytes))
    → IsWord (keyword_bytes (components keyword))
    → record_len keyword value ≡ ok len
    → IsU64 (cursor + len)
    → split_records fuel (cursor + len) rest ≡ some (ok pairs)
    → split_records (suc fuel) cursor (record_bytes keyword value len ++ rest)
      ≡ some (ok ((keyword_bytes (components keyword), value) ∷ pairs))
split_records-record_bytes fuel cursor len keyword value rest pairs w e fits behind =
    let word = keyword_bytes (components keyword) in
    let digits = Render.decimal_u64 len in
    let body = word ++ (b'=' ∷ (value ++ b'\n' ∷ [])) in
    let len_fits = (record_len-IsLength keyword value len e).1 in
    let measured = length-record_bytes keyword value len e in
    split_records_step fuel cursor (length digits + 1) (record_bytes keyword value len ++ rest)
      (record_bytes keyword value len) (word, value) pairs
      (frame_record-digits cursor len digits body rest (decimal_u64-IsDecimal len)
        (u64_from_str-decimal_u64 len len_fits) fits measured (ends digits word value))
      (split_record-body digits word value w)
      (ap (split_records fuel _) (drop-append _ (record_bytes keyword value len) rest refl)
        ∙ ap (λ n. split_records fuel (cursor + n) rest) measured
        ∙ behind)
  where
    ends :
        (digits word value : Bytes)
        → last (digits ++ (b' ' ∷ (word ++ (b'=' ∷ (value ++ b'\n' ∷ []))))) ≡ some b'\n'
    ends digits word value =
        ap (λ t. last (digits ++ (b' ' ∷ t))) (sym (append_assoc word (b'=' ∷ value) (b'\n' ∷ [])))
        ∙ ap last (sym (append_assoc digits (b' ' ∷ (word ++ (b'=' ∷ value))) (b'\n' ∷ [])))
        ∙ last-append (digits ++ (b' ' ∷ (word ++ (b'=' ∷ value)))) b'\n'

append_record_with_len_lem :
    (payload : Bytes) (keyword : PaxKeyword) (value : Bytes) (len : ℕ)
    → append_record_with_len payload keyword value len ≡ payload ++ record_bytes keyword value len
unfolding append_record_with_len append_decimal_usize
append_record_with_len_lem payload keyword value len =
    append_assoc payload (Render.decimal_u64 len) _

contains-All : (c : ℕ) (bytes : Bytes) → contains c bytes ≡ false → All (λ b. b ≢ c) bytes
contains-All c [] e = tt
contains-All c (b ∷ bs) e = elim (Bool-cases (b == c)) [
  | inl same ↦ absurd (ground arith)
  | inr other ↦ (ground arith, contains-All c bs (ground arith))
]

-- The keywords that `append_pax_record` lets pass.
valid-IsWord :
    (parts : Bytes × Option Bytes)
    → is_utf8 (keyword_bytes parts) ≡ true
    → invalid_keyword parts ≡ false
    → IsWord (keyword_bytes parts)
valid-IsWord (namespace, none) text valid = record {
  is_text = text;
  nonempty = ground (arith, valid);
  no_equals = contains-All b'=' namespace (ground (arith, valid));
}
valid-IsWord (namespace, some name) text valid = record {
  is_text = text;
  nonempty = still_some namespace (b'.' ∷ name) (ground (arith, valid));
  no_equals =
      All-append (λ b. b ≢ b'=') namespace (b'.' ∷ name)
        (contains-All b'=' namespace (ground (arith, valid)))
        (λ e. omega arith, contains-All b'=' name (ground (arith, valid)));
}
  where
    still_some : (xs ys : Bytes) → is_empty xs ≡ false → is_empty (xs ++ ys) ≡ false
    still_some [] ys e = cc
    still_some (x ∷ xs) ys e = refl

fail_if-eq-ok {ℓ} :
    {E : Type ℓ} (test : Bool) (e : E) {u : Unit {0}} → fail_if test e ≡ ok u → test ≡ false
fail_if-eq-ok true e h = cc
fail_if-eq-ok false e h = refl

-- What `append_pax_record` appends.
append_pax_record-record_bytes :
    (output out : Bytes) (keyword : PaxKeyword) (value : Bytes)
    → append_pax_record output keyword value ≡ ok out
    → (len : ℕ) × (invalid_keyword (components keyword) ≡ false)
      × (record_len keyword value ≡ ok len)
      × IsU64 (length output + len)
      × (out ≡ output ++ record_bytes keyword value len)
unfolding append_pax_record
append_pax_record-record_bytes output out keyword value e =
    let (checked, e₁, e₂) = >>=-eq-ok (fail_if (invalid_keyword (components keyword)) _) _ e in
    let (len, measured, e₃) = >>=-eq-ok (record_len keyword value) _ e₂ in
    let (total, e₄, e₅) = >>=-eq-ok (ok_or (checked_add (length output) len) _) _ e₃ in
    (
      len,
      fail_if-eq-ok _ _ e₁,
      measured,
      (checked-eq-some (length output + len) total (ok_or-eq-ok _ _ e₄)).1,
      sym (ok_injective _ out e₅) ∙ append_record_with_len_lem output keyword value len,
    )

-- The records of a list, appended in order.
unfoldable pub append_all : Bytes → List (PaxKeyword × Bytes) → Written Bytes
unfolding append_pax_record
append_all output [] = ok output
append_all output ((keyword, value) ∷ records) = do
  out ← append_pax_record output keyword value
  append_all out records

-- A keyword's parts are text, as Rust's `&str` has it.
abbrev pub IsText : PaxKeyword × Bytes → Type 0
IsText (keyword, value) = is_utf8 (keyword_bytes (components keyword)) ≡ true

abbrev pub as_text : List (PaxKeyword × Bytes) → List (Bytes × Bytes)
as_text [] = []
as_text ((keyword, value) ∷ records) = (keyword_bytes (components keyword), value) ∷ as_text records

-- The parser reads back the records that were appended to `output`, in order.
append_all-split_records :
    (output out : Bytes) (records : List (PaxKeyword × Bytes)) (cursor : ℕ)
    → append_all output records ≡ ok out
    → All IsText records
    → cursor ≤ length output
    → (tail : Bytes) × (out ≡ output ++ tail)
      × (length records ≤ length tail)
      × ((fuel : ℕ)
          → length records ≤ fuel
          → split_records fuel cursor tail ≡ some (ok (as_text records)))
unfolding append_all
append_all-split_records output out [] cursor e words h = (
  [],
  sym (ok_injective output out e) ∙ sym (append-nil output),
  omega arith,
  λ fuel enough. unfold split_records in refl,
)
append_all-split_records output out ((keyword, value) ∷ records) cursor e words h =
    let (next, e₁, e₂) = >>=-eq-ok (append_pax_record output keyword value) _ e in
    let (len, valid, measured, fits, appended) =
      append_pax_record-record_bytes output next keyword value e₁ in
    let here = record_bytes keyword value len in
    let size = length-record_bytes keyword value len measured in
    let longer : length next ≡ length output + len =
      ap length appended ∙ length-append output here ∙ ap (λ n. length output + n) size in
    let (tail, rest, counted, parsed) =
      append_all-split_records next out records (cursor + len) e₂ words.1
        (omega (arith, longer, h)) in
    let positive = (record_len-IsLength keyword value len measured).0 in
    (
      here ++ tail,
      rest ∙ ap (λ t. t ++ tail) appended ∙ append_assoc output here tail,
      omega (arith, length-append here tail, size, counted, positive),
      go keyword value records tail len (valid-IsWord (components keyword) words.0 valid) measured
          (omega (arith, fits, h)) parsed,
    )
  where
    go :
        (keyword : PaxKeyword) (value : Bytes) (records : List (PaxKeyword × Bytes)) (tail : Bytes)
        (len : ℕ)
        → IsWord (keyword_bytes (components keyword))
        → record_len keyword value ≡ ok len
        → IsU64 (cursor + len)
        → ((fuel : ℕ)
            → length records ≤ fuel
            → split_records fuel (cursor + len) tail ≡ some (ok (as_text records)))
        → (fuel : ℕ) → suc (length records) ≤ fuel
        → split_records fuel cursor (record_bytes keyword value len ++ tail)
          ≡ some (ok ((keyword_bytes (components keyword), value) ∷ as_text records))
    go keyword value records tail len w measured fits parsed zero enough = absurd (omega arith)
    go keyword value records tail len w measured fits parsed (suc fuel) enough =
        split_records-record_bytes fuel cursor len keyword value tail (as_text records) w measured
          fits (parsed fuel (omega arith))

-- The parser reads back the records that the writer appends: records that `append_pax_record` appends
-- to a buffer, one after the other and all with success, are the payload behind it, and
-- `PaxRecords::parse` splits that payload into the same keywords and values, in the same order,
-- and parses those. The keywords are UTF-8, as a `&str` is, and there is one record at least.
pub append_all-parse :
    (output out : Bytes) (first : PaxKeyword × Bytes) (records : List (PaxKeyword × Bytes))
    (inherited : HdrCharset)
    → append_all output (first ∷ records) ≡ ok out
    → All IsText (first ∷ records)
    → (payload : Bytes) × (out ≡ output ++ payload)
      × (parse payload inherited ≡ some (parse_pairs inherited (ok (as_text (first ∷ records)))))
append_all-parse output out first records inherited e texts =
    let (tail, same, counted, parsed) =
      append_all-split_records output out (first ∷ records) 0 e texts (omega arith) in
    (tail, same, parse_some tail inherited _ (omega arith) (parsed (length tail) counted))
  where
    parse_some :
        (payload : Bytes) (inherited : HdrCharset) (pairs : List (Bytes × Bytes))
        → 0 < length payload
        → split_records (length payload) 0 payload ≡ some (ok pairs)
        → parse payload inherited ≡ some (parse_pairs inherited (ok pairs))
    parse_some [] inherited pairs some_bytes e = absurd (omega arith)
    parse_some (b ∷ bs) inherited pairs some_bytes e = unfold parse in rw e
