-- ===== src/OutputNote/Export.antt =====
-- What can be rebuilt and exported from the record of an output note
-- (crates/rust-client/src/store/note_record/output_note_record/mod.rs).
use miden_client.Base.{ℕ, ◌≡◌, refl, ap, ◌∙◌, ◌↔◌, some, List, arith, ok}
use mathlib.Core.Path.{ap₂, subst}
use miden_client.Protocol.{Protocol, NoteLaws, NoteFile}
use miden_client.OutputNote.Record
use miden_client.OutputNote.Record.{OutputNoteRecord, NoteExportType}
use miden_client.OutputNote.Lifecycle.{Event, run, run-Follows}

-- A record whose recipient is known, in terms of its fields.
module _ {P : Protocol} (r : OutputNoteRecord P) {to : P.NoteRecipient}
    (known : Record.recipient r ≡ some to) where
  try_into_note-known : Record.try_into_note r ≡ ok (P.note_new r.assets r.metadata to)
  unfolding Record.try_into_note
  try_into_note-known = ground arith

  into_note_file-details :
      Record.into_note_file r NoteExportType.note_details
      ≡ ok (
          NoteFile.note_details
            (P.details_new r.assets to)
            r.expected_height
            (some (P.metadata_tag r.metadata)))
  unfolding Record.into_note_file
  into_note_file-details = ground arith

  into_note_file-proof :
      (proof : P.NoteInclusionProof)
      → (Record.into_note_file r NoteExportType.note_with_proof
          ≡ ok (NoteFile.note_with_proof (P.note_new r.assets r.metadata to) proof))
        ↔ (Record.inclusion_proof r ≡ some proof)
  unfolding Record.into_note_file
  into_note_file-proof proof = ground arith

module _ {P : Protocol} (laws : NoteLaws P) where
  from_full_note-recipient :
      (n : P.Note) (height : ℕ)
      → Record.recipient (Record.from_full_note {P = P} n height)
        ≡ some (P.details_recipient (P.note_details n))
  unfolding Record.recipient Record.from_full_note
  from_full_note-recipient n height = refl

  -- Whatever happened to the record of a full note since its creation, the note that it is
  -- converted to is the note that it was created from, and the ID and the nullifier of the record
  -- are those of the note.
  pub try_into_note-run :
      (n : P.Note) (height : ℕ) (es : List (Event P))
      → let r = run es (Record.from_full_note n height) in
        (Record.try_into_note r ≡ ok n)
        × (Record.id r ≡ P.details_id (P.note_details n))
        × (Record.nullifier r ≡ some (P.details_nullifier (P.note_details n)))
  unfolding Record.try_into_note Record.from_full_note Record.id Record.nullifier
  try_into_note-run n height es =
      let f = run-Follows es (Record.from_full_note n height) in
      (
        try_into_note-known (run es (Record.from_full_note n height)) f.same_recipient
            ∙ ap ok (
                ap₂ (λ a m. P.note_new a m (P.details_recipient (P.note_details n))) f.same_assets
                  f.same_metadata
                ∙ laws.note_new-parts n),
        f.same_id ∙ laws.note_id_new-parts (P.note_details n),
        f.same_nullifier ∙ ap some (laws.nullifier_new-parts (P.note_details n)),
      )

  -- The record of a full note exports, after any history, as the note's ID and as the note's
  -- details with the expected height and the tag; the note with its proof is exported exactly
  -- from a committed record.
  pub into_note_file-run :
      (n : P.Note) (height : ℕ) (es : List (Event P))
      → let r = run es (Record.from_full_note n height) in
        (Record.into_note_file r NoteExportType.note_id
          ≡ ok (NoteFile.note_id (P.details_id (P.note_details n))))
        × (Record.into_note_file r NoteExportType.note_details
            ≡ ok (
                NoteFile.note_details
                  (P.note_details n)
                  height
                  (some (P.metadata_tag (P.note_metadata n)))))
        × ((proof : P.NoteInclusionProof)
            → (Record.into_note_file r NoteExportType.note_with_proof
                ≡ ok (NoteFile.note_with_proof n proof))
              ↔ (Record.inclusion_proof r ≡ some proof))
  unfolding Record.into_note_file Record.from_full_note
  into_note_file-run n height es =
      let r = run es (Record.from_full_note n height) in
      let f = run-Follows es (Record.from_full_note n height) in
      let details = P.note_details n in
      let known = f.same_recipient in
      (
        ap (λ i. ok (NoteFile.note_id i)) (f.same_id ∙ laws.note_id_new-parts details),
        into_note_file-details r known
            ∙ cc (f.same_assets, f.same_height, f.same_metadata, laws.details_new-parts details),
        λ proof.
            subst
              (λ m.
                (Record.into_note_file r NoteExportType.note_with_proof
                  ≡ ok (NoteFile.note_with_proof m proof))
                ↔ (Record.inclusion_proof r ≡ some proof))
              (ap₂ (λ a m. P.note_new a m (P.details_recipient details)) f.same_assets
                  f.same_metadata
                ∙ laws.note_new-parts n)
              (into_note_file-proof r known proof),
      )
