-- ===== src/Pax/Parse.antt =====
-- crates/tar-framing/src/pax.rs: from the bytes of an extended header to its records.
use tar_codec.Base.{
  ℕ, zero, suc, ◌+◌, ◌-◌, false, not, ◌&&◌, Option, none, some, List, [], ◌∷◌, Bytes, length, take,
  drop, all, eq_bytes, position, ltb, ◌==◌, if◌then◌else◌, checked_add, Result, ok, err, ◌>>=◌,
  ◌>>◌, fail_if, ok_or, map_err,
}
use tar_codec.Text.{
  String, codes, is_utf8, is_empty, last, starts_with, split_once, is_ascii_digit, u64_from_str,
}
use tar_codec.Pax.{PaxError, HdrCharset, PaxString, PaxValue, PaxRecord, PaxRecords}

abbrev pub Parsed : Type 0 → Type 0
Parsed A = Result A PaxError

-- The text of a value, if it is UTF-8.
unfoldable pub parse_utf8 : Bytes → Parsed Bytes
unfolding is_utf8
parse_utf8 bytes = if is_utf8 bytes then ok bytes else err PaxError.invalid_utf8

unfoldable pub decimal_u64 : Bytes → Option ℕ
unfolding u64_from_str
decimal_u64 text = if starts_with b'+' text then none else u64_from_str text

abbrev pub utf8_hdrcharset : Bytes
utf8_hdrcharset = codes "ISO-IR 10646 2000 UTF-8"

abbrev pub binary_hdrcharset : Bytes
binary_hdrcharset = codes "BINARY"

-- `HdrCharset::from_str`
unfoldable pub hdrcharset_from_str : Bytes → Result HdrCharset Bytes
unfolding eq_bytes
hdrcharset_from_str text =
    if eq_bytes text utf8_hdrcharset
    then ok HdrCharset.utf8
    else if eq_bytes text binary_hdrcharset
    then ok HdrCharset.binary
    else err text

-- `PaxValue::<HdrCharset>::parse_hdrcharset`, through `PaxValue::from_str`
unfoldable pub parse_hdrcharset : Bytes → Parsed (PaxValue HdrCharset)
unfolding parse_utf8 hdrcharset_from_str
parse_hdrcharset bytes = do
  text ← parse_utf8 bytes
  if is_empty text
      then ok PaxValue.deleted
      else map_err PaxError.unsupported_charset
          (do charset ← hdrcharset_from_str text; ok (PaxValue.value charset))

unfoldable pub parse_text : Bytes → Parsed (PaxValue Bytes)
unfolding parse_utf8
parse_text bytes = do
  text ← parse_utf8 bytes
  ok (if is_empty text then PaxValue.deleted else PaxValue.value text)

unfoldable pub parse_opaque : Bytes → PaxValue Bytes
parse_opaque bytes = if is_empty bytes then PaxValue.deleted else PaxValue.value bytes

unfoldable pub parse_string_in : HdrCharset → Bytes → Parsed (PaxValue PaxString)
parse_string_in HdrCharset.utf8 bytes = do
  text ← parse_utf8 bytes
  ok (PaxValue.value (PaxString.utf8 text))
parse_string_in HdrCharset.binary bytes = ok (PaxValue.value (PaxString.binary bytes))

unfoldable pub parse_string : Bytes → HdrCharset → Parsed (PaxValue PaxString)
unfolding parse_string_in parse_utf8
parse_string bytes charset =
    if is_empty bytes then ok PaxValue.deleted else parse_string_in charset bytes

unfoldable pub parse_integer : String → Bytes → Parsed (PaxValue ℕ)
unfolding parse_utf8 decimal_u64
parse_integer name bytes = do
  text ← parse_utf8 bytes
  if is_empty text then ok PaxValue.deleted else do
    n ← ok_or (decimal_u64 text) (PaxError.invalid_integer name text)
    ok (PaxValue.value n)

-- The seconds of a time: what stands before a `.` that is followed by digits, one at least.
seconds_of : Bytes → Option (Bytes × Bytes) → Option Bytes
seconds_of text none = some text
seconds_of text (some (seconds, fraction)) =
    if not (is_empty fraction) && all is_ascii_digit fraction then some seconds else none

unfoldable pub parse_time : String → Bytes → Parsed (PaxValue ℕ)
unfolding parse_utf8 decimal_u64 seconds_of split_once
parse_time name bytes = do
  text ← parse_utf8 bytes
  if is_empty text then ok PaxValue.deleted else do
    seconds ← ok_or (seconds_of text (split_once b'.' text)) (PaxError.invalid_time name text)
    n ← ok_or (decimal_u64 seconds) (PaxError.invalid_time name text)
    ok (PaxValue.value n)

parse_in_namespace : Bytes → Bytes → Bytes → Bytes → Parsed PaxRecord
unfolding parse_text eq_bytes parse_opaque
parse_in_namespace word namespace name bytes =
    if eq_bytes namespace (codes "realtime")
    then (do v ← parse_text bytes; ok (PaxRecord.realtime name v))
    else if eq_bytes namespace (codes "security")
    then (do v ← parse_text bytes; ok (PaxRecord.security name v))
    else if not (is_empty namespace)
    then ok (PaxRecord.vendor namespace name (parse_opaque bytes))
    else err (PaxError.invalid_keyword word)

parse_split : Bytes → Bytes → Option (Bytes × Bytes) → Parsed PaxRecord
unfolding parse_in_namespace
parse_split word bytes none = err (PaxError.invalid_keyword word)
parse_split word bytes (some (namespace, name)) =
    if not (is_empty name)
    then parse_in_namespace word namespace name bytes
    else err (PaxError.invalid_keyword word)

unfoldable pub parse_namespaced : Bytes → Bytes → Parsed PaxRecord
unfolding parse_split split_once
parse_namespaced word bytes = parse_split word bytes (split_once b'.' word)

-- `PaxRecord::parse`, of a keyword and the bytes of its value
unfoldable pub parse_record : Bytes → Bytes → HdrCharset → Parsed PaxRecord
unfolding eq_bytes parse_time parse_text parse_integer parse_string parse_hdrcharset
    parse_namespaced
parse_record word bytes charset =
    if eq_bytes word (codes "atime")
    then (do v ← parse_time "atime" bytes; ok (PaxRecord.atime v))
    else if eq_bytes word (codes "charset")
    then (do v ← parse_text bytes; ok (PaxRecord.charset v))
    else if eq_bytes word (codes "comment")
    then (do v ← parse_text bytes; ok (PaxRecord.comment v))
    else if eq_bytes word (codes "ctime")
    then (do v ← parse_time "ctime" bytes; ok (PaxRecord.ctime v))
    else if eq_bytes word (codes "gid")
    then (do v ← parse_integer "gid" bytes; ok (PaxRecord.gid v))
    else if eq_bytes word (codes "gname")
    then (do v ← parse_string bytes charset; ok (PaxRecord.gname v))
    else if eq_bytes word (codes "hdrcharset")
    then (do v ← parse_hdrcharset bytes; ok (PaxRecord.hdrcharset v))
    else if eq_bytes word (codes "linkpath")
    then (do v ← parse_string bytes charset; ok (PaxRecord.linkpath v))
    else if eq_bytes word (codes "mtime")
    then (do v ← parse_time "mtime" bytes; ok (PaxRecord.mtime v))
    else if eq_bytes word (codes "path")
    then (do v ← parse_string bytes charset; ok (PaxRecord.path v))
    else if eq_bytes word (codes "size")
    then (do v ← parse_integer "size" bytes; ok (PaxRecord.size v))
    else if eq_bytes word (codes "uid")
    then (do v ← parse_integer "uid" bytes; ok (PaxRecord.uid v))
    else if eq_bytes word (codes "uname")
    then (do v ← parse_string bytes charset; ok (PaxRecord.uname v))
    else parse_namespaced word bytes

-- The first half of a round of `PaxRecords::parse`: the record that begins at `cursor`, with the
-- offset in it of the byte behind the space. `rest` is `payload[cursor..]`.
unfoldable pub frame_record : ℕ → Bytes → Parsed (ℕ × Bytes)
frame_record cursor rest = do
  space ←
      ok_or (position b' ' rest) (PaxError.invalid_records "record is missing its length separator")
  fail_if (space == 0) (PaxError.invalid_records "record length is empty")
  record_len ←
      ok_or (if is_utf8 (take space rest) then decimal_u64 (take space rest) else none)
        (PaxError.invalid_records "record length is not a valid decimal integer")
  record_end ← ok_or (checked_add cursor record_len) (PaxError.arithmetic_overflow "pax record end")
  fail_if (ltb (cursor + length rest) record_end)
      (PaxError.invalid_records "record length exceeds extended header payload")
  let record_bytes = take record_len rest
  fail_if (not (elim (last record_bytes) [ none ↦ false | some b ↦ b == b'\n' ]))
      (PaxError.invalid_records "record is not newline terminated")
  ok (space + 1, record_bytes)

-- The second half: keyword and value, without the newline.
unfoldable pub split_record : ℕ → Bytes → Parsed (Bytes × Bytes)
split_record content_start record_bytes = do
  let content = drop content_start (take (length record_bytes - 1) record_bytes)
  equals ←
      ok_or (position b'=' content)
        (PaxError.invalid_records "record is missing its keyword/value separator")
  fail_if (equals == 0) (PaxError.invalid_records "record keyword is empty")
  word ← parse_utf8 (take equals content)
  ok (word, drop (equals + 1) content)

-- The `while` loop. `none` means that the fuel ran out.
unfoldable pub split_records : ℕ → ℕ → Bytes → Option (Parsed (List (Bytes × Bytes)))
split_records fuel cursor [] = some (ok [])
split_records zero cursor (b ∷ bs) = none
split_records (suc fuel) cursor (b ∷ bs) = elim (frame_record cursor (b ∷ bs)) [
  | err e ↦ some (err e)
  | ok (content_start, record_bytes) ↦ elim (split_record content_start record_bytes) [
    | err e ↦ some (err e)
    | ok pair ↦
        elim (split_records fuel (cursor + length record_bytes)
          (drop (length record_bytes) (b ∷ bs))) [
            | none ↦ none
            | some (err e) ↦ some (err e)
            | some (ok pairs) ↦ some (ok (pair ∷ pairs))
          ]
  ]
]

unfoldable pub resolve_hdrcharset : List (Bytes × Bytes) → HdrCharset → Parsed HdrCharset
unfolding parse_hdrcharset eq_bytes
resolve_hdrcharset [] charset = ok charset
resolve_hdrcharset ((word, bytes) ∷ pairs) charset = do
  next ←
      if eq_bytes word (codes "hdrcharset")
      then (do
        v ← parse_hdrcharset bytes
        ok (elim v [ PaxValue.value c ↦ c | PaxValue.deleted ↦ HdrCharset.utf8 ]))
      else ok charset
  resolve_hdrcharset pairs next

-- `collect::<Result<Vec<_>, _>>()` of the typed parses
unfoldable pub parse_all : List (Bytes × Bytes) → HdrCharset → Parsed PaxRecords
unfolding parse_record
parse_all [] charset = ok []
parse_all ((word, bytes) ∷ pairs) charset = do
  r ← parse_record word bytes charset
  rs ← parse_all pairs charset
  ok (r ∷ rs)

unfoldable pub parse_pairs : HdrCharset → Parsed (List (Bytes × Bytes)) → Parsed PaxRecords
parse_pairs inherited split = do
  pairs ← split
  charset ← resolve_hdrcharset pairs inherited
  parse_all pairs charset

-- `PaxRecords::parse`; each round takes a byte at least, so the payload's length is fuel enough.
unfoldable pub parse : Bytes → HdrCharset → Option (Parsed PaxRecords)
unfolding split_records frame_record split_record position is_utf8 decimal_u64 parse_utf8
    resolve_hdrcharset parse_all parse_pairs
parse payload inherited =
    if is_empty payload
    then some (err (PaxError.invalid_records "local extended header payload contains no records"))
    else elim (split_records (length payload) 0 payload) [
      | none ↦ none
      | some split ↦ some (parse_pairs inherited split)
    ]

-- `parse` with its fuel put aside: `parse-ne-none` of Pax/Total shows that `none` does not occur.
unfoldable pub parse_records : Bytes → HdrCharset → Parsed PaxRecords
unfolding parse
parse_records payload inherited = elim (parse payload inherited) [ none ↦ ok [] | some r ↦ r ]
