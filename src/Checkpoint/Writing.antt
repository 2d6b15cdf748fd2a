-- ===== src/Checkpoint/Writing.antt =====
-- src/checkpoint.rs: writing a prepared checkpoint, and the seal operations built on it.
-- A writer keeps what it was given before an error, so its state comes back on every path.
pub mod Sealed
use wasm_runtime.Base.{ℕ, none, some, String, [], ◌∷◌, ◌++◌, Bytes}
use wasm_runtime.Failure
use wasm_runtime.Failure.{Message, text, checkpoint, Error, Result, ok, err, panic, stuck, reject}
use wasm_runtime.Checkpoint.Binding.{WasixCheckpointBinding}
use wasm_runtime.Checkpoint.Metadata.{External}
use wasm_runtime.Checkpoint.Codec.{WasixCheckpointCodec}
use wasm_runtime.Checkpoint.Seal.{
  CapturedWasixJournal, PreparedCheckpoint, Mac, update, Writer, vec_writer, authentication_state,
  finalize, prepare_seal, check_binding,
}

-- Actions on a writer's state.
abbrev pub Out : Type 0 → Type 0 → Type 0
Out W A = W → W × Result A

infixl 5 ◌>>=◌ ◌>>◌
abbrev pub ◌>>=◌ : {W A B : Type 0} → Out W A → (A → Out W B) → Out W B
◌>>=◌ m f w =
    let (w', r) = m w in
    elim r [ ok a ↦ f a w' | err e ↦ (w', err e) | panic ↦ (w', panic) | stuck ↦ (w', stuck) ]

abbrev pub ◌>>◌ : {W B : Type 0} → Out W (Unit {0}) → Out W B → Out W B
m >> k = m >>= λ _. k

-- A step that does not touch the writer.
abbrev pub lift : {W A : Type 0} → Result A → Out W A
lift r w = (w, r)

module _ {W : Type 0} (writer : Writer W) where
  -- `writer.write_all(bytes)`, with the prefix of the error's message.
  abbrev write_or : Message → Bytes → Out W (Unit {0})
  write_or m bytes w =
      let (w', failure) = writer.write_all w bytes in
      (w', elim failure [ none ↦ ok tt | some e ↦ err (checkpoint (m ++ e)) ])

  unfoldable pub write_authenticated_chunk : Mac → Bytes → String → Out W Mac
  write_authenticated_chunk mac bytes phase = do
    write_or (text "checkpoint artifact " ∷ text phase ∷ text " write failed: " ∷ []) bytes
    lift (ok (update mac bytes))

  module _ (x : External) (codec : WasixCheckpointCodec) where
    unfoldable pub write_prepared_checkpoint : PreparedCheckpoint → Out W (Unit {0})
    write_prepared_checkpoint prepared = do
      mac ← lift (authentication_state x codec)
      mac1 ← write_authenticated_chunk mac prepared.header "header"
      mac2 ← write_authenticated_chunk mac1 prepared.metadata "metadata"
      mac3 ← write_authenticated_chunk mac2 prepared.journal "journal"
      write_or (text "checkpoint artifact tag write failed: " ∷ []) (finalize x mac3)

    unfoldable pub seal_bound_capture_into : WasixCheckpointBinding → CapturedWasixJournal → Out W ℕ
    seal_bound_capture_into binding journal = do
      prepared ← lift (prepare_seal x codec binding journal)
      write_prepared_checkpoint prepared
      lift (ok prepared.artifact_len)

    unfoldable pub seal_capture_into : CapturedWasixJournal → Out W ℕ
    seal_capture_into journal = seal_bound_capture_into journal.binding journal

    unfoldable pub seal_into : WasixCheckpointBinding → CapturedWasixJournal → Out W ℕ
    seal_into binding journal = do
      lift (check_binding binding journal)
      seal_bound_capture_into binding journal

module _ (x : External) (codec : WasixCheckpointCodec) where
  -- `Vec::try_reserve_exact` on the artifact's vector.
  abbrev reserve_artifact : ℕ → Out Bytes (Unit {0})
  reserve_artifact n w = (
    w,
    elim (x.try_reserve_exact n) [
      | none ↦ ok tt
      | some e ↦ err (checkpoint (text "checkpoint artifact allocation failed during seal: " ∷ e))
    ],
  )

  -- The artifact is written into a vector, which is dropped on an error.
  unfoldable pub write_artifact :
      WasixCheckpointBinding → CapturedWasixJournal → Out Bytes (Unit {0})
  write_artifact binding journal = do
    prepared ← lift (prepare_seal x codec binding journal)
    reserve_artifact prepared.artifact_len
    write_prepared_checkpoint vec_writer x codec prepared

  unfoldable pub seal_bound_capture : WasixCheckpointBinding → CapturedWasixJournal → Result Bytes
  seal_bound_capture binding journal =
      let (artifact, r) = write_artifact binding journal [] in Failure.◌>>◌ r (ok artifact)

  unfoldable pub seal_capture : CapturedWasixJournal → Result Bytes
  seal_capture journal = seal_bound_capture journal.binding journal

  unfoldable pub seal : WasixCheckpointBinding → CapturedWasixJournal → Result Bytes
  seal binding journal =
      Failure.◌>>◌ (check_binding binding journal) (seal_bound_capture binding journal)
