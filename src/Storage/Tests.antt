-- ===== src/Storage/Tests.antt =====
-- The storage at a few files, and an upload of a text file to a small organisation.
use legal_bridge.Prelude.{
  ◌+◌, String, true, false, none, some, [], ◌∷◌, ◌≡◌, refl, codes, decimal, length,
}
use legal_bridge.Store.Schema.{Text, DocumentRecord}
use legal_bridge.Store.Session.{Result, ok, err}
use legal_bridge.Auth.Tests.{settings, admin_alice}
use legal_bridge.Auth.Principal.{require_roles}
use legal_bridge.Cases.{get_organization_case}
use legal_bridge.Cases.Tests.{with_cases}
use legal_bridge.Extraction.Tests.{readers}
use legal_bridge.Processing.Tests.{statement}
use legal_bridge.Storage.{Bytes, Files, quarantine, read_file}
use legal_bridge.Storage.Quarantine.{Reversible, quarantine-Reversible}
use legal_bridge.Storage.Signatures.{Decoders}
use legal_bridge.Storage.Staging.{UploadFile, digits, stage_upload}
use legal_bridge.Storage.Staging.Accepted.{StageResult, stage_upload-StageResult, upload_content}
use legal_bridge.DocumentRoutes.{document_editor}
use legal_bridge.DocumentRoutes.World.{World}
use legal_bridge.DocumentRoutes.Records.{Host}
use legal_bridge.DocumentRoutes.Uploads.{upload_document}
use legal_bridge.DocumentRoutes.Uploaded.{HasBinary, IsCommitted, upload_document-HasBinary}

abbrev decoders : Decoders
decoders = record {
  infolist = λ bytes. none;
  testzip_raises = λ bytes. false;
  is_utf16 = λ bytes. true;
}

abbrev digest : Bytes → String
digest bytes = digits (decimal (length bytes))

abbrev note : UploadFile
note = record {
  filename = some "note.txt";
  content_type = some "text/plain; charset=utf-8";
  chunks = codes "First page." ∷ codes " Second sentence." ∷ [];
}

abbrev pub files : Files
files = record { path = codes "10/50/40/original.txt"; content = codes "old" } ∷ []

stage_upload-StageResult_example :
    StageResult decoders digest 100
      (codes ".staging/upload-1.part")
      note
      files
      (stage_upload decoders digest 100 (codes ".staging/upload-1.part") note files)
stage_upload-StageResult_example =
    stage_upload-StageResult decoders digest 100 (codes ".staging/upload-1.part") note files

quarantine-Reversible_example : Reversible files (
    quarantine
      (codes "documents")
      (codes ".quarantine/1.deleted")
      (some "10/50/40/original.txt")
      files)
quarantine-Reversible_example =
    quarantine-Reversible (codes "documents") (codes ".quarantine/1.deleted")
      (some "10/50/40/original.txt") files refl

abbrev host : Host
host = record {
  decoders = decoders;
  sha256 = digest;
  readers = λ fs. record readers { txt_bytes = λ path. read_file path fs };
  uuid_text = λ id. digits (decimal id);
}

abbrev world : World
world = record { session = record { committed = with_cases; working = with_cases }; files = files }

abbrev temporary : Text
temporary = codes ".staging/upload-2.part"

abbrev uploaded : Result DocumentRecord × World
uploaded =
    upload_document host settings 1000 41 (λ n. 500 + n) temporary 50 note " evidence " admin_alice
      world

abbrev document_of : Result DocumentRecord → DocumentRecord
document_of (ok d) = d
document_of (err e) = statement

uploads :
    upload_document host settings 1000 41
      (λ n. 500 + n)
      temporary
      50
      note
      " evidence "
      admin_alice
      world
    ≡ (ok (document_of uploaded.0), uploaded.1)
unfolding upload_document document_editor require_roles get_organization_case decimal
uploads = refl

upload_document-HasBinary_example :
    HasBinary (upload_content note.chunks) (document_of uploaded.0).storage_key uploaded.1.files
    × IsCommitted 41 50 (document_of uploaded.0) uploaded.1.session
upload_document-HasBinary_example =
    upload_document-HasBinary host settings 1000 41 (λ n. 500 + n) temporary 50 note " evidence "
      admin_alice world uploaded.1 (document_of uploaded.0) uploads
