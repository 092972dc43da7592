-- ===== src/Codec/Policy/Accepts.antt =====
-- The pax records that `check_pax_records` of crates/tar-codec/src/decode.rs accepts.
use tar_codec.Base.{
  ℕ, Bool, true, false, not, ◌&&◌, none, List, [], ◌∷◌, All, ok, err, ◌>>◌, ◌≡◌, ◌≢◌, ◌↔◌, ◌⊎◌, inl,
  inr, refl, sym, ◌∙◌, Bool-cases, Option-cases, arith, Bytes, eq_bytes_iff,
}
use mathlib.Core.Option.{none-ne-some}
use tar_codec.Text.{is_utf8}
use tar_codec.Pax.{PaxKind, PaxKeyword, PaxValue, PaxRecord, PaxRecords, keyword, keyword_eq}
use tar_codec.Pax.Keywords.{keyword_eq_iff}
use tar_codec.Codec.{PaxVendorExtensionPolicy, PaxDecodePolicy, Decoded}
use tar_codec.Codec.Policy.{
  listed, vendor_allowed, not_utf8, check_vendor, check_vendors, restricted, check_metadata,
  seen_in, check_duplicates, is_global, when, check_pax_records,
}

-- A namespace is among those of a list.
abbrev pub Among : Bytes → List Bytes → Type 0
Among vendor [] = ⊥
Among vendor (v ∷ vendors) = (v ≡ vendor) ⊎ Among vendor vendors

-- The namespaces that a policy lets pass: none, those that it lists, or all.
abbrev pub AllowsVendor : PaxVendorExtensionPolicy → Bytes → Type 0
AllowsVendor PaxVendorExtensionPolicy.reject_unknown vendor = ⊥
AllowsVendor (PaxVendorExtensionPolicy.ignore allowed) vendor = Among vendor allowed
AllowsVendor PaxVendorExtensionPolicy.allow_unknown vendor = Unit {0}

abbrev pub IsUtf8Value : PaxValue Bytes → Type 0
IsUtf8Value (PaxValue.value bytes) = is_utf8 bytes ≡ true
IsUtf8Value PaxValue.deleted = Unit {0}

-- A record of a vendor is allowed by its namespace, and its value is UTF-8 where that is asked for.
abbrev pub VendorAllowed : PaxDecodePolicy → PaxRecord → Type 0
VendorAllowed policy (PaxRecord.vendor vendor name v) =
    AllowsVendor policy.vendor_extension_policy vendor
    × ((policy.allow_non_utf8_pax_vendor_values ≡ true) ⊎ IsUtf8Value v)
VendorAllowed policy _ = Unit {0}

-- A record says nothing of the path, the link target or the size of members.
abbrev pub NoMemberMetadata : PaxKeyword → Type 0
NoMemberMetadata k = (k ≢ PaxKeyword.path) × (k ≢ PaxKeyword.linkpath) × (k ≢ PaxKeyword.size)

-- No keyword is repeated.
abbrev pub Distinct : PaxRecords → Type 0
Distinct [] = Unit {0}
Distinct (r ∷ records) =
    All (λ (other : PaxRecord). keyword r ≢ keyword other) records × Distinct records

-- What a policy asks of the records of one extension.
abbrev pub Accepted : PaxDecodePolicy → PaxKind → PaxRecords → Type 0
Accepted policy kind records =
    All (VendorAllowed policy) records
    × ((kind ≡ PaxKind.local)
        ⊎ (policy.allow_global_pax_member_metadata ≡ true)
        ⊎ All (λ (r : PaxRecord). NoMemberMetadata (keyword r)) records)
    × ((policy.allow_duplicate_pax_records ≡ true) ⊎ Distinct records)

listed_iff :
    (vendor : Bytes) (vendors : List Bytes) → (listed vendor vendors ≡ true) ↔ Among vendor vendors
listed_iff vendor [] = (λ h. cc, λ h. absurd h)
listed_iff vendor (v ∷ vendors) = ground (arith, listed_iff vendor vendors, eq_bytes_iff v vendor)

vendor_allowed_iff :
    (policy : PaxVendorExtensionPolicy) (vendor : Bytes)
    → (vendor_allowed policy vendor ≡ true) ↔ AllowsVendor policy vendor
unfolding vendor_allowed
vendor_allowed_iff PaxVendorExtensionPolicy.reject_unknown vendor = (λ h. cc, λ h. absurd h)
vendor_allowed_iff (PaxVendorExtensionPolicy.ignore allowed) vendor = listed_iff vendor allowed
vendor_allowed_iff PaxVendorExtensionPolicy.allow_unknown vendor = (λ h. tt, λ h. refl)

not_utf8_iff : (v : PaxValue Bytes) → (not_utf8 v ≡ false) ↔ IsUtf8Value v
not_utf8_iff (PaxValue.value bytes) = ground arith
not_utf8_iff PaxValue.deleted = (λ h. tt, λ h. refl)

restricted_iff : (k : PaxKeyword) → (restricted k ≡ none) ↔ NoMemberMetadata k
unfolding restricted
restricted_iff k = ground arith

both_ok_iff : (a b : Decoded (Unit {0})) → ((a >> b) ≡ ok tt) ↔ ((a ≡ ok tt) × (b ≡ ok tt))
both_ok_iff (ok u) b = (λ e. (refl, e), λ h. h.1)
both_ok_iff (err e) b = ((λ h. cc), (λ h. cc))

when_global_iff :
    (kind : PaxKind) (allow : Bool) (check : Decoded (Unit {0}))
    → (when (is_global kind && not allow) check ≡ ok tt)
      ↔ ((kind ≡ PaxKind.local) ⊎ (allow ≡ true) ⊎ (check ≡ ok tt))
when_global_iff PaxKind.local allow check = (λ _. inl refl, λ _. refl)
when_global_iff PaxKind.global true check = (λ _. inr (inl refl), λ _. refl)
when_global_iff PaxKind.global false check =
    ((λ e. inr (inr e)), (λ h. elim h [ inl e ↦ cc | inr (inl e) ↦ cc | inr (inr e) ↦ e ]))

unless_iff :
    (allow : Bool) (check : Decoded (Unit {0}))
    → (when (not allow) check ≡ ok tt) ↔ ((allow ≡ true) ⊎ (check ≡ ok tt))
unless_iff true check = (λ _. inl refl, λ _. refl)
unless_iff false check = (λ e. inr e, λ h. elim h [ inl e ↦ cc | inr e ↦ e ])

check_vendor_iff :
    (policy : PaxDecodePolicy) (position : ℕ) (r : PaxRecord)
    → (check_vendor policy position r ≡ ok tt) ↔ VendorAllowed policy r
unfolding check_vendor
check_vendor_iff policy position (PaxRecord.vendor vendor name v) =
    let allowed = vendor_allowed_iff policy.vendor_extension_policy vendor in
    let utf8 = not_utf8_iff v in ground arith
check_vendor_iff policy position _ = (λ _. tt, λ _. refl)

check_vendors_iff :
    (policy : PaxDecodePolicy) (position : ℕ) (records : PaxRecords)
    → (check_vendors policy position records ≡ ok tt) ↔ All (VendorAllowed policy) records
unfolding check_vendors
check_vendors_iff policy position [] = (λ _. tt, λ _. refl)
check_vendors_iff policy position (r ∷ records) =
    let both =
      both_ok_iff (check_vendor policy position r) (check_vendors policy position records) in
    let first = check_vendor_iff policy position r in
    let rest = check_vendors_iff policy position records in
    (λ e. (first.0 (both.0 e).0, rest.0 (both.0 e).1), λ h. both.1 (first.1 h.0, rest.1 h.1))

check_metadata_iff :
    (position : ℕ) (records : PaxRecords)
    → (check_metadata position records ≡ ok tt)
      ↔ All (λ (r : PaxRecord). NoMemberMetadata (keyword r)) records
unfolding check_metadata
check_metadata_iff position [] = (λ _. tt, λ _. refl)
check_metadata_iff position (r ∷ records) = elim (Option-cases (restricted (keyword r))) [
  | inl free ↦
      rw (free, check_metadata)
        (
          (λ e. ((restricted_iff (keyword r)).0 free, (check_metadata_iff position records).0 e)),
          (λ h. (check_metadata_iff position records).1 h.1),
        )
  | inr (name, bound) ↦
      rw (bound, check_metadata)
        (
          (λ e. cc),
          (λ h. absurd (none-ne-some name (sym ((restricted_iff (keyword r)).1 h.0) ∙ bound))),
        )
]

-- None of the keywords that were seen is this one.
abbrev Unseen : List PaxKeyword → PaxKeyword → Type 0
Unseen keywords k = All (λ (j : PaxKeyword). j ≢ k) keywords

seen_in_iff :
    (k : PaxKeyword) (keywords : List PaxKeyword) → (seen_in k keywords ≡ false) ↔ Unseen keywords k
seen_in_iff k [] = (λ _. tt, λ _. refl)
seen_in_iff k (j ∷ keywords) = elim (Bool-cases (keyword_eq j k)) [
  | inl same ↦ rw same ((λ e. cc), (λ h. absurd (h.0 ((keyword_eq_iff j k).0 same))))
  | inr apart ↦ rw apart (
    (λ e. (
      (λ same. absurd (true-ne-false (sym ((keyword_eq_iff j k).1 same) ∙ apart))),
      (seen_in_iff k keywords).0 e,
    )),
    (λ h. (seen_in_iff k keywords).1 h.1),
  )
]
  where
    true-ne-false : true ≡ false → ⊥
    true-ne-false e = cc

All-swap_in :
    (r : PaxRecord) (keywords : List PaxKeyword) (records : PaxRecords)
    → All (λ (o : PaxRecord). Unseen (keyword r ∷ keywords) (keyword o)) records
    → All (λ (o : PaxRecord). keyword r ≢ keyword o) records
      × All (λ (o : PaxRecord). Unseen keywords (keyword o)) records
All-swap_in r keywords [] h = (tt, tt)
All-swap_in r keywords (o ∷ records) h =
    let (here, there) = All-swap_in r keywords records h.1 in ((h.0.0, here), (h.0.1, there))

All-swap_out :
    (r : PaxRecord) (keywords : List PaxKeyword) (records : PaxRecords)
    → All (λ (o : PaxRecord). keyword r ≢ keyword o) records
    → All (λ (o : PaxRecord). Unseen keywords (keyword o)) records
    → All (λ (o : PaxRecord). Unseen (keyword r ∷ keywords) (keyword o)) records
All-swap_out r keywords [] h g = tt
All-swap_out r keywords (o ∷ records) h g = ((h.0, g.0), All-swap_out r keywords records h.1 g.1)

check_duplicates_iff :
    (position : ℕ) (records : PaxRecords) (keywords : List PaxKeyword)
    → (check_duplicates position records keywords ≡ ok tt)
      ↔ (Distinct records × All (λ (r : PaxRecord). Unseen keywords (keyword r)) records)
unfolding check_duplicates
check_duplicates_iff position [] keywords = (λ _. (tt, tt), λ _. refl)
check_duplicates_iff position (r ∷ records) keywords =
    let ih = check_duplicates_iff position records (keyword r ∷ keywords) in
    let unseen = seen_in_iff (keyword r) keywords in
    elim (Bool-cases (seen_in (keyword r) keywords)) [
      | inl seen ↦
          rw (seen, check_duplicates)
            ((λ e. cc), (λ h. absurd (true-ne-false (sym seen ∙ unseen.1 h.1.0))))
      | inr fresh ↦
          rw (fresh, check_duplicates)
            (
              (λ e.
                  let (distinct, others) = ih.0 e in
                  let (apart, old) = All-swap_in r keywords records others in
                  ((apart, distinct), (unseen.0 fresh, old))),
              (λ h. ih.1 (h.0.1, All-swap_out r keywords records h.0.0 h.1.1)),
            )
    ]
  where
    true-ne-false : true ≡ false → ⊥
    true-ne-false e = cc

-- `check_pax_records` accepts exactly the records that the policy asks for: each vendor's namespace is
-- one that the policy allows, with a value in UTF-8 unless others are allowed; a global extension says
-- nothing of path, linkpath or size unless that is allowed; and no keyword stands twice unless that is.
pub check_pax_records_iff :
    (policy : PaxDecodePolicy) (position : ℕ) (kind : PaxKind) (records : PaxRecords)
    → (check_pax_records policy position kind records ≡ ok tt) ↔ Accepted policy kind records
unfolding check_pax_records
check_pax_records_iff policy position kind records =
    let metadata =
      when (is_global kind && not policy.allow_global_pax_member_metadata)
        (check_metadata position records) in
    let duplicates =
      when (not policy.allow_duplicate_pax_records) (check_duplicates position records []) in
    let all = both_ok_iff (check_vendors policy position records) (metadata >> duplicates) in
    let last = both_ok_iff metadata duplicates in
    let vendor = check_vendors_iff policy position records in
    let meta =
      when_global_iff kind policy.allow_global_pax_member_metadata
        (check_metadata position records) in
    let dup =
      unless_iff policy.allow_duplicate_pax_records (check_duplicates position records []) in
    let each = check_metadata_iff position records in
    let distinct = check_duplicates_iff position records [] in
    (
      λ e.
          let (v, rest) = all.0 e in
          let (m, d) = last.0 rest in
          (
            vendor.0 v,
            elim (meta.0 m) [
              | inl local ↦ inl local
              | inr (inl free) ↦ inr (inl free)
              | inr (inr on) ↦ inr (inr (each.0 on))
            ],
            elim (dup.0 d) [ inl off ↦ inl off | inr on ↦ inr (distinct.0 on).0 ],
          ),
      λ (v, m, d). all.1 (
        vendor.1 v,
        last.1 (
          meta.1 (elim m [
            | inl local ↦ inl local
            | inr (inl free) ↦ inr (inl free)
            | inr (inr on) ↦ inr (inr (each.1 on))
          ]),
          dup.1 (elim d [ inl off ↦ inl off | inr on ↦ inr (distinct.1 (on, none_seen records)) ]),
        ),
      ),
    )
  where
    none_seen : (records : PaxRecords) → All (λ (r : PaxRecord). Unseen [] (keyword r)) records
    none_seen [] = tt
    none_seen (r ∷ records) = (tt, none_seen records)
