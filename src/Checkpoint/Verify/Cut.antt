-- ===== src/Checkpoint/Verify/Cut.antt =====
-- src/checkpoint.rs: an artifact cut at the layout of its header.
use mathlib.Core.Path.{ap₂}
use wasm_runtime.Base.{
  ℕ, ◌+◌, ◌≡◌, sym, ap, ◌∙◌, ◌++◌, Bytes, length, length-take, length-drop, take, drop,
  take-append_at, arith,
}
use wasm_runtime.Slices.{cut_in_four}
use wasm_runtime.Checkpoint.Metadata.{External}
use wasm_runtime.Checkpoint.Codec.{WasixCheckpointCodec, header_bytes}
use wasm_runtime.Checkpoint.Verify.Assembled.{covered, tag, assemble, split_covered, length-covered}

module _ (x : External) (codec : WasixCheckpointCodec) where
  module _ (artifact : Bytes) (m n : ℕ) (size : length artifact ≡ 22 + m + n + 32)
      (head : take 22 artifact ≡ header_bytes m n) where
    abbrev pub encoded_of : Bytes
    encoded_of = take m (drop 22 artifact)

    abbrev pub journal_of : Bytes
    journal_of = take n (drop (22 + m) artifact)

    pub length-encoded : length encoded_of ≡ m
    length-encoded = omega (arith, length-take m (drop 22 artifact), length-drop 22 artifact)

    pub length-journal : length journal_of ≡ n
    length-journal =
        omega (arith, length-take n (drop (22 + m) artifact), length-drop (22 + m) artifact)

    pub cut :
        artifact
        ≡ header_bytes (length encoded_of) (length journal_of)
          ++ (encoded_of ++ (journal_of ++ drop (22 + m + n) artifact))
    cut =
        cut_in_four 22 m n artifact
        ∙ ap (λ t. t ++ (encoded_of ++ (journal_of ++ drop (22 + m + n) artifact)))
            (head ∙ ap₂ header_bytes (sym length-encoded) (sym length-journal))

    pub authenticated : take (22 + m + n) (drop 0 artifact) ≡ covered x codec encoded_of journal_of
    authenticated =
        let rest = drop (22 + m + n) artifact in
        ap (take (22 + m + n)) (cut ∙ split_covered x codec encoded_of journal_of rest)
        ∙ take-append_at (22 + m + n) (covered x codec encoded_of journal_of) rest (
            omega
              (arith, length-covered x codec encoded_of journal_of, length-encoded, length-journal))

    -- With the right tag behind it, it is the assembled artifact.
    pub reassemble :
        drop (22 + m + n) artifact ≡ tag x codec encoded_of journal_of
        → artifact ≡ assemble x codec encoded_of journal_of
    unfolding assemble
    reassemble e =
        cut
        ∙ ap
            (λ t.
              header_bytes (length encoded_of) (length journal_of)
              ++ (encoded_of ++ (journal_of ++ t)))
            e
