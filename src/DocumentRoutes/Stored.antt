-- ===== src/DocumentRoutes/Stored.antt =====
-- What storing a staged file leaves in the storage.
use legal_bridge.Prelude.{
  String, true, false, List, [], ◌∷◌, ◌++◌, ◌==◌, ==_self, arith, Option, none, some, ◌≡◌, refl,
  sym, ap, subst, ◌∙◌, any, not, ◌&&◌, text_eq, text_eq_self, text_eq→≡, is_some, if◌then◌else◌,
  if-cases, if-both, Bool-cases, inl, inr,
}
use mathlib.Core.Bool.{false≢true}
use legal_bridge.Store.Schema.{Uuid, DateTime, Text, DocumentRecord}
use legal_bridge.Store.Session.{Result, ok, err}
use legal_bridge.Auth.Principal.{Principal}
use legal_bridge.Storage.{
  Bytes, Files, StagedUpload, Finalized, stored, raised, read_file, remove_file, move_file, is_file,
  resolve_key, finalize, document_key, is_safe_component,
}
use legal_bridge.Storage.Quarantine.{read_file-remove_file, read_moved}
use legal_bridge.Storage.Staging.{UploadFile}
use legal_bridge.DocumentRoutes.{same_content}
use legal_bridge.DocumentRoutes.World.{World, Route}
use legal_bridge.DocumentRoutes.Records.{Host, uploaded_document}
use legal_bridge.DocumentRoutes.Uploads.{add_uploaded, store_finalized, store_staged}

module _ (content : Bytes) (temporary : Text) (document_id case_id : Uuid) where
  -- The document has a key, and the content stands at its path, which is not the temporary file's.
  abbrev pub IsStored : Option String → Files → Type 0
  IsStored storage_key files =
      (key : String) × (path : Text) × (storage_key ≡ some key)
      × (resolve_key key ≡ some path)
      × (read_file path files ≡ some content)
      × (text_eq path temporary ≡ false)

  -- The document is the one that was asked for, and its row has been added.
  abbrev pub IsAdded : DocumentRecord → World → Type 0
  IsAdded d w =
      (d.id ≡ document_id)
      × (d.case_id ≡ case_id)
      × (any (λ r. r.id == d.id) w.session.working.documents ≡ true)

  abbrev pub StoredResult : Result DocumentRecord × World → Type 0
  StoredResult (err e, w) = Unit
  StoredResult (ok d, w) = IsStored d.storage_key w.files × IsAdded d w

  any-append :
      (d : DocumentRecord) (ds : List DocumentRecord)
      → any (λ r. r.id == d.id) (ds ++ d ∷ []) ≡ true
  any-append d [] = ground (arith, ==_self d.id)
  any-append d (x ∷ ds) = ground (arith, any-append d ds)

  abbrev Finally : Finalized → Type 0
  Finally Finalized.raised = Unit
  Finally (Finalized.stored key files) = IsStored (some key) files

  apart :
      (path : Text) (files : Files)
      → is_file path files ≡ false
      → read_file temporary files ≡ some content
      → text_eq path temporary ≡ false
  apart path files e h = elim (Bool-cases (text_eq path temporary)) [
    | inr f ↦ f
    | inl f ↦ absurd (
        false≢true (
          sym e
          ∙ ap (λ t. is_some (read_file t files)) (text_eq→≡ path temporary f)
          ∙ ap is_some h))
  ]

  path-Finally :
      (key : String) (o : Option Text) (files : Files)
      → resolve_key key ≡ o
      → read_file temporary files ≡ some content
      → Finally (elim o [
        | none ↦ raised
        | some path ↦
            if is_file path files then raised else stored key (move_file temporary path files)
      ])
  path-Finally key none files r h = tt
  path-Finally key (some path) files r h =
      if-cases (λ f. Finally f) (is_file path files) (λ e. tt)
        (λ e. (
          key,
          path,
          refl,
          r,
          read_moved path temporary path content files h ∙ rw (text_eq_self path) refl,
          apart path files e h,
        ))

  finalize-Finally :
      (staged : StagedUpload) (organization_id case_id document_id : String) (files : Files)
      → staged.temporary_path ≡ temporary
      → read_file temporary files ≡ some content
      → Finally (finalize staged organization_id case_id document_id files)
  unfolding finalize
  finalize-Finally staged organization_id case_id document_id files t h =
      subst
        (λ u. Finally (
          if not (
            is_safe_component organization_id
            && is_safe_component case_id
            && is_safe_component document_id)
          then raised
          else elim (resolve_key
              (document_key organization_id case_id document_id staged.extension)) [
                | none ↦ raised
                | some path ↦
                    if is_file path files
                    then raised
                    else stored (document_key organization_id case_id document_id staged.extension)
                        (move_file u path files)
              ]))
        (sym t)
        (if-both (λ f. Finally f)
          (not (
            is_safe_component organization_id
            && is_safe_component case_id
            && is_safe_component document_id))
          tt
          (path-Finally (document_key organization_id case_id document_id staged.extension)
            (resolve_key (document_key organization_id case_id document_id staged.extension)) files
            refl h))

  module _ (host : Host) (now : DateTime) (file : UploadFile) (category : String)
      (principal : Principal) where
    added-StoredResult :
        (key : String) (d : DocumentRecord) (w : World)
        → IsStored d.storage_key w.files
        → d.id ≡ document_id
        → d.case_id ≡ case_id
        → StoredResult (add_uploaded host now document_id case_id file category principal key d w)
    unfolding add_uploaded
    added-StoredResult key d w h same case_same =
        if-both (λ (m : Route DocumentRecord). StoredResult (m w))
          (any (same_content d) w.session.working.documents) tt
          (h, (same, case_same, any-append d w.session.working.documents))

    finalized-StoredResult :
        (staged : StagedUpload) (f : Finalized) (w : World)
        → Finally f
        → StoredResult
            (store_finalized host now document_id case_id file category principal staged f w)
    unfolding store_finalized
    finalized-StoredResult staged Finalized.raised w h = tt
    finalized-StoredResult staged (Finalized.stored key files) w h =
        added-StoredResult key
          (uploaded_document document_id case_id file category staged key now principal)
          (record w { files = files }) h refl refl

    pub staged-StoredResult :
        (staged : StagedUpload) (w : World)
        → staged.temporary_path ≡ temporary
        → read_file temporary w.files ≡ some content
        → StoredResult (store_staged host now document_id case_id file category principal staged w)
    unfolding store_staged
    staged-StoredResult staged w t h =
        if-both (λ (m : Route DocumentRecord). StoredResult (m w))
          (any
            (same_content
              (uploaded_document document_id case_id file category staged "" now principal))
            w.session.working.documents)
          tt
          (finalized-StoredResult staged
            (finalize staged (host.uuid_text principal.organization.id) (host.uuid_text case_id)
              (host.uuid_text document_id) w.files)
            w
            (finalize-Finally staged (host.uuid_text principal.organization.id)
              (host.uuid_text case_id) (host.uuid_text document_id) w.files t h))

  pub discarded-StoredResult :
      (r : Result DocumentRecord) (w : World)
      → StoredResult (r, w)
      → StoredResult (r, record w { files = remove_file temporary w.files })
  discarded-StoredResult (err e) w h = tt
  discarded-StoredResult (ok d) w ((key, path, a, b, c, ne), added) =
      ((key, path, a, b, read_file-remove_file path temporary w.files ∙ rw ne c, ne), added)
