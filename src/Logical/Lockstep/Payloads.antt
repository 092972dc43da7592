-- ===== src/Logical/Lockstep/Payloads.antt =====
-- Extension payloads keep the stream of crates/tar-framing/src/stream.rs and the assembly of logical.rs in step.
use tar_codec.Base.{
  ℕ, ◌-◌, ◌≡◌, refl, true, none, some, ◌++◌, arith, Bytes, Result, ok, err, ◌==◌, if◌then◌else◌,
  Bool-cases, leb, take, inl, inr,
}
use tar_codec.Pax.{PaxError, PaxKind, PaxRecords}
use tar_codec.Stream.{GnuKind, DataOwner, FrameErrorInner, at, PendingGnu, State, TarStream}
use tar_codec.Stream.Machine
use tar_codec.Stream.Machine.{
  Handler, process_pax_header, process_ustar_header, process_gnu_header, already_seen, check_format,
  same_format, after, boundary_in, parse_payload, inherited_charset, complete_pax, data_frame,
  block_len, process_pax_boundary_header, begin_gnu_extension, process_gnu_extension,
  process_gnu_member, gnu_header_in, extension_kind, process_boundary_header, read_pax, process_in,
  read_ustar_header, read_gnu_header, process_in, process_block, parse_format_checked_header,
}
use tar_codec.Pax.Parse.{parse_records}
use tar_codec.Logical.{
  ExtensionPayload, Assembly, process_frame, process_extension_data, extension_data_in,
  owned_by_gnu, complete_gnu_data,
}
use tar_codec.Logical.Lockstep.{Fresh, Seen, unmark, InStep, FollowsFrame, FollowsBlock}

pub pax_data-Follows :
    (kind : PaxKind) (h n p : ℕ) (block : Bytes) (records : PaxRecords) (a : Assembly)
    (s : TarStream)
    → a.global_pax_records ≡ s.global_pax_records
    → a.extension_payload ≡ some (ExtensionPayload.pax h kind)
    → Fresh a.pending_extensions
    → FollowsFrame a (
      (complete_pax kind records s).0,
      ok (data_frame p block n (DataOwner.pax kind) (some records)),
    )
unfolding complete_pax process_frame
pax_data-Follows PaxKind.local h n p block records a s g x f = ground arith
pax_data-Follows PaxKind.global h n p block records a s g x f = ground arith

pub partial_pax_data-Follows :
    (kind : PaxKind) (h n p rest : ℕ) (block payload : Bytes) (a : Assembly) (s : TarStream)
    → a.global_pax_records ≡ s.global_pax_records
    → a.extension_payload ≡ some (ExtensionPayload.pax h kind)
    → Fresh a.pending_extensions
    → FollowsFrame a (
      record s { state = State.reading_pax kind h rest payload },
      ok (data_frame p block n (DataOwner.pax kind) none),
    )
unfolding process_frame
partial_pax_data-Follows PaxKind.local h n p rest block payload a s g x f = ground arith
partial_pax_data-Follows PaxKind.global h n p rest block payload a s g x f = ground arith

block_len-leb : (remaining : ℕ) → leb (block_len remaining) remaining ≡ true
block_len-leb remaining = ground arith

pub gnu_data_frame :
    (kind : GnuKind) (h remaining p : ℕ) (block bytes : Bytes) (a : Assembly)
    → a.extension_payload ≡ some (ExtensionPayload.gnu h kind remaining bytes)
    → process_frame (data_frame p block (block_len remaining) (DataOwner.gnu kind) none) a ≡ (
      complete_gnu_data h kind
          (remaining - block_len remaining)
          (bytes ++ take (block_len remaining) block)
          (record a { extension_payload = none }),
      ok none,
    )
unfolding process_frame process_extension_data extension_data_in owned_by_gnu
gnu_data_frame GnuKind.long_name h remaining p block bytes a x =
    rw (x, block_len-leb remaining) refl
gnu_data_frame GnuKind.long_link h remaining p block bytes a x =
    rw (x, block_len-leb remaining) refl

pub gnu_data-InStep :
    (kind : GnuKind) (h rest : ℕ) (bytes : Bytes) (pending : PendingGnu) (a : Assembly)
    (s : TarStream)
    → a.global_pax_records ≡ s.global_pax_records
    → Seen (unmark kind pending) a.pending_extensions
    → already_seen kind pending ≡ true
    → InStep
        (complete_gnu_data h kind rest bytes (record a { extension_payload = none }))
        (record s {
          state =
              if rest == 0
              then State.awaiting_gnu_member pending
              else State.reading_gnu kind rest pending;
        })
unfolding complete_gnu_data already_seen
gnu_data-InStep GnuKind.long_name h rest bytes pending a s g f m = elim (Bool-cases (rest == 0)) [
  | inl last ↦ rw last (ground arith)
  | inr more ↦ rw more (record { globals = g; pending = ((h, bytes, refl), f) })
]
gnu_data-InStep GnuKind.long_link h rest bytes pending a s g f m = elim (Bool-cases (rest == 0)) [
  | inl last ↦ rw last (ground arith)
  | inr more ↦ rw more (record { globals = g; pending = ((h, bytes, refl), f) })
]

pub complete_pax-FollowsBlock :
    (r : Result PaxRecords PaxError) (kind : PaxKind) (h n p : ℕ) (block : Bytes) (a : Assembly)
    (s : TarStream)
    → a.global_pax_records ≡ s.global_pax_records
    → a.extension_payload ≡ some (ExtensionPayload.pax h kind)
    → Fresh a.pending_extensions
    → FollowsBlock a (
        Machine.◌>>=◌
          (λ t. elim r [
            | ok records ↦ (t, ok records)
            | err e ↦ (t, err (at h (FrameErrorInner.invalid_pax_record e)))
          ])
          (λ records.
            Machine.◌>>◌
              (complete_pax kind records)
              (Machine.pure (some (data_frame p block n (DataOwner.pax kind) (some records)))))
          s)
unfolding complete_pax
complete_pax-FollowsBlock (err e) kind h n p block a s g x f = tt
complete_pax-FollowsBlock (ok records) PaxKind.local h n p block a s g x f =
    pax_data-Follows PaxKind.local h n p block records a s g x f
complete_pax-FollowsBlock (ok records) PaxKind.global h n p block a s g x f =
    pax_data-Follows PaxKind.global h n p block records a s g x f

pub read_pax-FollowsBlock :
    (kind : PaxKind) (h remaining : ℕ) (payload : Bytes) (p : ℕ) (block : Bytes) (a : Assembly)
    (s : TarStream)
    → a.global_pax_records ≡ s.global_pax_records
    → a.extension_payload ≡ some (ExtensionPayload.pax h kind)
    → Fresh a.pending_extensions
    → FollowsBlock a (read_pax kind h remaining payload p block s)
unfolding read_pax parse_payload
read_pax-FollowsBlock kind h remaining payload p block a s g x f =
    elim (Bool-cases (remaining - block_len remaining == 0)) [
      | inl last ↦ rw last (
          complete_pax-FollowsBlock
            (parse_records (payload ++ take (block_len remaining) block)
              (inherited_charset s.global_pax_records))
            kind h (block_len remaining) p block a s g x f)
      | inr more ↦ rw more (
          partial_pax_data-Follows kind h (block_len remaining) p (remaining - block_len remaining)
            block (payload ++ take (block_len remaining) block) a s g x f)
    ]
