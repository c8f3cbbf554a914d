-- ===== src/Extraction/Sound.antt =====
-- What every extraction returns, whatever the file and its type.
use legal_bridge.Prelude.{
  ℕ, ◌≤◌, String, Bool, true, min, Option, none, some, List, [], ◌≡◌, refl, arith, length, All,
  if-both, str_eq, ◌+◌, take, ltb,
}
use legal_bridge.Store.Schema.{Text}
use legal_bridge.Config.{Settings}
use legal_bridge.Extraction.Pages.{ExtractedPage, ExtractionResult, apply_limits}
use legal_bridge.Extraction.Limits.{characters, FitsPage, limits_hold}
use legal_bridge.Extraction.Formats.{
  PdfPage, Block, Readers, failed, scan_pages, pdf_of, extract_pdf,
}
use legal_bridge.Extraction.Documents.{
  add_blocks, close_section, section_pages, or_empty_section, paginate, docx_of, byte_limit,
  decoded_of, txt_of, extract_docx, extract_txt, extract_document,
}
use legal_bridge.Extraction.Texts.{normalise_text}

-- The pages of a result are within the limits, and their characters are counted.
abbrev pub Sound : Settings → ExtractionResult → Type 0
Sound settings result =
    (result.total_characters ≡ characters result.pages)
    × (result.total_characters ≤ settings.extraction_text_limit)
    × All (FitsPage settings) result.pages
    × (length result.pages ≤ settings.extraction_max_pages)

failed-Sound :
    (settings : Settings) (name version message : String)
    → Sound settings (failed name version message)
failed-Sound settings name version message = (refl, omega arith, tt, omega arith)

limited-Sound :
    (settings : Settings) (pages : List ExtractedPage)
    → let limited = apply_limits pages settings in
      (limited.total ≡ characters limited.pages)
      × (limited.total ≤ settings.extraction_text_limit)
      × All (FitsPage settings) limited.pages
      × (length limited.pages ≤ settings.extraction_max_pages)
limited-Sound settings pages = let (a, b, c, d, e) = limits_hold pages settings in (a, b, c, d)

module _ (readers : Readers) (settings : Settings) where
  pdf_of-Sound :
      (file : Option (Option (List PdfPage))) → Sound settings (pdf_of readers settings file)
  pdf_of-Sound none =
      failed-Sound settings "PyMuPDF" readers.pymupdf_version "The PDF could not be parsed safely."
  pdf_of-Sound (some none) =
      failed-Sound settings "PyMuPDF" readers.pymupdf_version
        "The PDF failed during text extraction."
  pdf_of-Sound (some (some document)) =
      limited-Sound settings (scan_pages readers settings 0 document).pages

  docx_of-Sound : (file : Option (List Block)) → Sound settings (docx_of readers settings file)
  docx_of-Sound none =
      failed-Sound settings "python-docx" readers.docx_version
        "The DOCX could not be parsed safely."
  docx_of-Sound (some document) = limited-Sound settings (
      or_empty_section (
        section_pages (min 20000 settings.extraction_page_text_limit) [] (
          close_section
            (add_blocks (record { sections = []; heading = none; blocks = [] }) document))))

  decoded_of-Sound :
      (truncated_input : Bool) (d : Option (Text × Text))
      → Sound settings (decoded_of readers settings truncated_input d)
  decoded_of-Sound truncated_input none =
      failed-Sound settings "controlled-text-decoder" "1.0"
        "The TXT file could not be decoded using a controlled text encoding."
  decoded_of-Sound truncated_input (some (decoded, label)) =
      limited-Sound settings (paginate settings (normalise_text true decoded))

  txt_of-Sound : (file : Option (List ℕ)) → Sound settings (txt_of readers settings file)
  txt_of-Sound none =
      failed-Sound settings "controlled-text-decoder" "1.0" "The TXT file could not be read."
  txt_of-Sound (some content) =
      let data_read = take (byte_limit readers settings + 1) content in
      let truncated_input = ltb (byte_limit readers settings) (length data_read) in
      decoded_of-Sound truncated_input
        (readers.decode_text (take (byte_limit readers settings) data_read) truncated_input)

  -- Whatever the file holds and whatever its declared type, the result of an extraction has as many
  -- characters on its pages as it reports, within the limits on the document's text, on each page's
  -- text and on the number of pages.
  pub extract_document-Sound :
      (path : Text) (content_type : String)
      → Sound settings (extract_document readers path content_type settings)
  unfolding extract_document extract_pdf extract_docx extract_txt
  extract_document-Sound path content_type =
      if-both (Sound settings) (str_eq content_type "application/pdf")
        (pdf_of-Sound (readers.pdf_pages path))
        (if-both (Sound settings)
          (str_eq content_type
            "application/vnd.openxmlformats-officedocument.wordprocessingml.document")
          (docx_of-Sound (readers.docx_blocks path))
          (if-both (Sound settings) (str_eq content_type "text/plain")
            (txt_of-Sound (readers.txt_bytes path))
            (failed-Sound settings "unsupported" "0" "No extractor exists for this content type.")))
