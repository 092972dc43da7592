-- ===== src/Logical/Lockstep/Blocks.antt =====
-- A block of crates/tar-framing/src/stream.rs keeps the stream and the assembly of logical.rs in step.
use tar_codec.Base.{
  ℕ, ◌-◌, ◌≡◌, sym, refl, false, ◌++◌, arith, Bytes, ◌==◌, if◌then◌else◌, Bool-cases, take, subst,
  inl, inr,
}
use tar_codec.Stream.{State, TarStream, StreamPolicy, new_stream}
use tar_codec.Stream.Headers.{is_zero_block}
use tar_codec.Stream.Machine.{block_len, process_boundary_header, process_in, process_block}
use tar_codec.Stream.Invariant.{StateFits, IsValid, StateFits-failed}
use tar_codec.Logical.{Assembly, new_assembly}
use tar_codec.Logical.Lockstep.{is_reading_member, Matches, InStep, Follows, FollowsBlock}
use tar_codec.Logical.Lockstep.Headers.{
  boundary_header-Follows, ustar_after_pax-FollowsBlock, member_after_gnu-FollowsBlock,
}
use tar_codec.Logical.Lockstep.Steps.{frame-FollowsBlock}
use tar_codec.Logical.Lockstep.Payloads.{read_pax-FollowsBlock, gnu_data_frame, gnu_data-InStep}

process_in-FollowsBlock :
    (q : State) (p : ℕ) (block : Bytes) (a : Assembly) (s : TarStream)
    → s.state ≡ State.failed
    → a.global_pax_records ≡ s.global_pax_records
    → Matches q a
    → StateFits s q
    → is_reading_member q ≡ false
    → FollowsBlock a (process_in q p block s)
unfolding process_in
process_in-FollowsBlock State.awaiting_header p block a s over g (x, f) fits drained =
    elim (Bool-cases (is_zero_block block)) [
      | inl zeros ↦ rw zeros (record { globals = g; pending = tt })
      | inr some_bits ↦ rw some_bits (
          frame-FollowsBlock a (process_boundary_header p block) s
            (boundary_header-Follows p block a s g x f))
    ]
process_in-FollowsBlock (State.reading_pax kind h remaining payload) p block a s over g (x, f) fits
      drained =
    read_pax-FollowsBlock kind h remaining payload p block a s g x f
process_in-FollowsBlock (State.awaiting_ustar_header records) p block a s over g
      (x, records_read, name, link) fits drained =
    ustar_after_pax-FollowsBlock records p block a s g x
process_in-FollowsBlock (State.reading_gnu kind remaining pending) p block a s over g
      ((h, bytes, x), f) fits drained =
    subst
      (λ r. Follows r (record s {
        state =
            if remaining - block_len remaining == 0
            then State.awaiting_gnu_member pending
            else State.reading_gnu kind (remaining - block_len remaining) pending;
      }))
      (sym (gnu_data_frame kind h remaining p block bytes a x))
      (gnu_data-InStep kind h (remaining - block_len remaining)
        (bytes ++ take (block_len remaining) block) pending a s g f fits.3)
process_in-FollowsBlock (State.awaiting_gnu_member pending) p block a s over g (x, f) fits drained =
    member_after_gnu-FollowsBlock pending p block a s g x f
process_in-FollowsBlock (State.reading_member remaining) p block a s over g x fits drained =
    ground arith
process_in-FollowsBlock State.awaiting_second_zero p block a s over g x fits drained =
    elim (Bool-cases (is_zero_block block)) [
      | inl zeros ↦ rw zeros (record { globals = g; pending = tt })
      | inr some_bits ↦ rw some_bits tt
    ]
process_in-FollowsBlock State.complete p block a s over g x fits drained = record {
  globals = g;
  pending = tt;
}
process_in-FollowsBlock State.failed p block a s over g x fits drained = record {
  globals = g;
  pending = rw over tt;
}

-- When the reader has drained the member before, the block that the stream handles next leaves the
-- assembly in step: no frame is refused.
pub process_block-FollowsBlock :
    (p : ℕ) (block : Bytes) (a : Assembly) (s : TarStream)
    → InStep a s
    → IsValid s
    → is_reading_member s.state ≡ false
    → FollowsBlock a (process_block p block s)
unfolding process_block
process_block-FollowsBlock p block a s step v drained =
    process_in-FollowsBlock s.state p block a (record s { state = State.failed }) refl step.globals
      step.pending (StateFits-failed s s.state v.fits) drained

pub new_assembly-InStep : (policy : StreamPolicy) → InStep new_assembly (new_stream policy)
new_assembly-InStep policy = ground arith
