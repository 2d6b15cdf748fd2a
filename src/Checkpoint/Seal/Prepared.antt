-- ===== src/Checkpoint/Seal/Prepared.antt =====
-- src/checkpoint.rs: what `prepare_seal` has checked and encoded when it succeeds.
use mathlib.Core.Path.{subst}
use wasm_runtime.Base.{
  ℕ, ◌+◌, ◌^◌, ◌≤◌, ◌≡◌, refl, Bool, false, not, ◌||◌, some, none, List, [], ◌∷◌, ◌++◌, append-nil,
  append_assoc, arith, Bytes, length, length-append, ltb, leb, ◌==◌,
}
use wasm_runtime.Failure.{
  ok, ok_or, >>=-eq-ok, >>-eq-ok, reject-eq-ok, ok_or-eq-ok, ok-injective, checked_add,
}
use wasm_runtime.Checkpoint.Binding.{WasixCheckpointBinding, validate, binding_eq, binding_eq→eq}
use wasm_runtime.Checkpoint.Metadata.{External, CheckpointMetadata, current, concat}
use wasm_runtime.Checkpoint.Journal.{scan_journal}
use wasm_runtime.Checkpoint.Codec.{
  WasixCheckpointCodec, validate_limit, validate_journal_length, header_bytes,
}
use wasm_runtime.Checkpoint.Codec.Header.{Fits}
use wasm_runtime.Checkpoint.Seal.{
  CapturedWasixJournal, FallibleBoundedVec, PreparedCheckpoint, write_bounded, write_buffers,
  encode_metadata, prepare_seal,
}

module _ (x : External) where
  write_bounded-ok :
      (v v' : FallibleBoundedVec) (bytes : Bytes)
      → write_bounded x v bytes ≡ (v', none)
      → (v'.bytes ≡ v.bytes ++ bytes)
        × (v'.maximum_bytes ≡ v.maximum_bytes)
        × (length v.bytes + length bytes ≤ v.maximum_bytes)
  unfolding write_bounded checked_add
  write_bounded-ok v v' bytes e = ground arith

  -- A metadata writer that succeeds holds all buffers, within its bound.
  pub write_buffers-ok :
      (buffers : List Bytes) (v v' : FallibleBoundedVec)
      → length v.bytes ≤ v.maximum_bytes
      → write_buffers x v buffers ≡ (v', none)
      → (v'.bytes ≡ v.bytes ++ concat buffers) × (length v'.bytes ≤ v.maximum_bytes)
  unfolding write_buffers
  write_buffers-ok [] v v' h e = ground (arith, append-nil v.bytes)
  write_buffers-ok ([] ∷ rest) v v' h e = write_buffers-ok rest v v' h e
  write_buffers-ok ((b ∷ bs) ∷ rest) v v' h e =
      let w = (write_bounded x v (b ∷ bs)).0 in
      ground (
        arith,
        write_bounded-ok v w (b ∷ bs),
        length-append v.bytes (b ∷ bs),
        write_buffers-ok rest w v',
        append_assoc v.bytes (b ∷ bs) (concat rest),
      )

  pub encode_metadata-ok :
      (m : CheckpointMetadata) (bytes : Bytes)
      → encode_metadata x m ≡ ok bytes
      → bytes ≡ concat (x.write_metadata m)
  encode_metadata-ok m bytes e =
      let start : FallibleBoundedVec = record { bytes = []; maximum_bytes = 16384 } in
      let v = (write_buffers x start (x.write_metadata m)).0 in
      ground (arith, write_buffers-ok (x.write_metadata m) start v)

  -- What a preparation that succeeds has checked.
  pub record IsPrepared (codec : WasixCheckpointCodec) (binding : WasixCheckpointBinding)
      (journal : CapturedWasixJournal) (p : PreparedCheckpoint) : Type 0 where
    pub valid : validate binding ≡ ok tt
    pub same : binding ≡ journal.binding
    pub scanned : scan_journal journal.bytes ≡ ok tt
    pub encoded :
        p.metadata
        ≡ concat (x.write_metadata (current x binding journal.worker_build_sha256 journal.bytes))
    pub fits : Fits codec (length p.metadata) (length journal.bytes)
    pub header : p.header ≡ header_bytes (length p.metadata) (length journal.bytes)
    pub journal_bytes : p.journal ≡ journal.bytes
    pub artifact_len : p.artifact_len ≡ 22 + length p.metadata + length journal.bytes + 32

  prepared_fits :
      (codec : WasixCheckpointCodec) (m n a b c : ℕ)
      → validate_journal_length codec n ≡ ok tt
      → (m == 0 || ltb 16384 m) ≡ false
      → checked_add 22 m ≡ some a
      → checked_add a n ≡ some b
      → checked_add b 32 ≡ some c
      → Fits codec m n × (c ≡ 22 + m + n + 32)
  unfolding validate_journal_length checked_add
  prepared_fits codec m n a b c h1 h2 h3 h4 h5 = ground arith

  same_binding :
      (a b : WasixCheckpointBinding) (explicit : Bool)
      → (not (binding_eq a b) || not explicit) ≡ false
      → a ≡ b
  same_binding a b explicit h = ground (arith, binding_eq→eq a b)

  abbrev pub prepared_as : Bytes → Bytes → ℕ → PreparedCheckpoint
  prepared_as metadata journal n = record {
    header = header_bytes (length metadata) (length journal);
    metadata = metadata;
    journal = journal;
    artifact_len = n;
  }

  build :
      (codec : WasixCheckpointCodec) (binding : WasixCheckpointBinding)
      (journal : CapturedWasixJournal) (p : PreparedCheckpoint) (metadata : Bytes) (c : ℕ)
      → validate binding ≡ ok tt
      → (not (binding_eq binding journal.binding) || not journal.explicit_snapshot) ≡ false
      → scan_journal journal.bytes ≡ ok tt
      → encode_metadata x (current x binding journal.worker_build_sha256 journal.bytes)
        ≡ ok metadata
      → Fits codec (length metadata) (length journal.bytes)
        × (c ≡ 22 + length metadata + length journal.bytes + 32)
      → ok (prepared_as metadata journal.bytes c) ≡ ok p
      → IsPrepared codec binding journal p
  build codec binding journal p metadata c valid same scanned encoded fits e =
      subst (IsPrepared codec binding journal) (ok-injective e) (record {
        valid = valid;
        same = same_binding binding journal.binding journal.explicit_snapshot same;
        scanned = scanned;
        encoded = encode_metadata-ok _ metadata encoded;
        fits = fits.0;
        header = refl;
        journal_bytes = refl;
        artifact_len = fits.1;
      })

  pub prepare_seal-IsPrepared :
      (codec : WasixCheckpointCodec) (binding : WasixCheckpointBinding)
      (journal : CapturedWasixJournal) (p : PreparedCheckpoint)
      → prepare_seal x codec binding journal ≡ ok p
      → IsPrepared codec binding journal p
  unfolding prepare_seal
  prepare_seal-IsPrepared codec binding journal p e =
      let m = current x binding journal.worker_build_sha256 journal.bytes in
      let (e1, h1) = >>-eq-ok (validate_limit codec) _ e in
      let (e2, h2) = >>-eq-ok (validate binding) _ h1 in
      let (e3, h3) =
        reject-eq-ok (not (binding_eq binding journal.binding) || not journal.explicit_snapshot) _ _
          h2 in
      let (e4, h4) = >>-eq-ok (validate_journal_length codec (length journal.bytes)) _ h3 in
      let (e5, h5) = >>-eq-ok (scan_journal journal.bytes) _ h4 in
      let (metadata, e6, h6) = >>=-eq-ok (encode_metadata x m) _ h5 in
      let (e7, h7) = reject-eq-ok (length metadata == 0 || ltb 16384 (length metadata)) _ _ h6 in
      let (a, e8, h8) = >>=-eq-ok (ok_or (checked_add 22 (length metadata)) _) _ h7 in
      let (b, e9, h9) = >>=-eq-ok (ok_or (checked_add a (length journal.bytes)) _) _ h8 in
      let (c, e10, h10) = >>=-eq-ok (ok_or (checked_add b 32) _) _ h9 in
      let (e11, h11) = reject-eq-ok (leb (2 ^ 32) (length metadata)) _ _ h10 in
      let (e12, h12) = reject-eq-ok (leb (2 ^ 64) (length journal.bytes)) _ _ h11 in
      build codec binding journal p metadata c e2 e3 e5 e6
        (prepared_fits codec (length metadata) (length journal.bytes) a b c e4 e7
          (ok_or-eq-ok _ _ e8) (ok_or-eq-ok _ _ e9) (ok_or-eq-ok _ _ e10))
        h12
