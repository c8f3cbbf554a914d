-- ===== src/Extraction/Formats.antt =====
-- server/app/services/extraction.py: what `_extract_pdf` does. What PyMuPDF, Tesseract, python-docx, the file system and the text codecs
-- (with charset_normalizer, in `_decode_text`) return for a file are fields of `Readers`.
use legal_bridge.Prelude.{
  ℕ, ◌+◌, String, Bool, false, Option, none, some, List, [], ◌∷◌, ◌++◌, ◌&&◌, ◌||◌, not, filter,
  length, ltb, leb, ◌==◌, codes, decimal, if◌then◌else◌,
}
use legal_bridge.Store.Schema.{Text, ExtractionStatus}
use legal_bridge.Config.{Settings}
use legal_bridge.Extraction.Pages.{ExtractedPage, ExtractionResult, apply_limits, without}
use legal_bridge.Extraction.Texts.{normalise_text}

-- A page of a PDF file: its embedded text and what Tesseract reads on it, if it does not fail.
pub record PdfPage : Type 0 where
  pub embedded : Text
  pub ocr : Option Text

-- A block of a DOCX file: a paragraph with the name of its style, or a table's cells by rows.
pub data Block : Type 0 where
  paragraph : Text → Text → Block
  table : List (List Text) → Block

pub record Readers : Type 0 where
  pub pymupdf_version : String
  pub docx_version : String
  -- None where the file is not opened, `some none` where reading it fails.
  pub pdf_pages : Text → Option (Option (List PdfPage))
  pub ocr_available : Bool
  -- The characters that the pattern `\w` matches.
  pub is_word : ℕ → Bool
  pub docx_blocks : Text → Option (List Block)
  pub txt_bytes : Text → Option (List ℕ)
  -- The decoded text with the name of the encoding.
  pub decode_text : List ℕ → Bool → Option (Text × Text)

abbrev pub failed : String → String → String → ExtractionResult
failed parser_name parser_version message = record {
  parser_name = parser_name;
  parser_version = parser_version;
  status = ExtractionStatus.failed;
  pages = [];
  total_characters = 0;
  warnings = [];
  needs_ocr = false;
  error = some message;
}

-- What the loop over the pages of a PDF file has collected.
pub record Scan : Type 0 where
  pub pages : List ExtractedPage
  pub ocr_required_pages : ℕ
  pub warnings : List Text

abbrev pub ocr_failed_warning : ℕ → Text
ocr_failed_warning n = codes "Physical page " ++ (decimal n ++ codes " requires OCR.")

abbrev pub no_ocr_warning : ℕ → Text
no_ocr_warning n =
    codes "Physical page "
    ++ (decimal n ++ codes " has no meaningful embedded text; OCR is unavailable or disabled.")

module _ (readers : Readers) where
  abbrev pub meaningful : Text → Bool
  meaningful value = leb 20 (length (filter readers.is_word value))

  -- A page's text, its method and the warning, if OCR is required.
  abbrev pub read_page : ℕ → PdfPage → Text × String × Option Text
  read_page n page =
      let embedded_text = normalise_text false page.embedded in
      if meaningful embedded_text
      then (embedded_text, "pdf_embedded_text", none)
      else if readers.ocr_available
      then elim page.ocr [
        | some text ↦ (normalise_text false text, "ocr_tesseract", none)
        | none ↦ ([], "ocr_required", some (ocr_failed_warning n))
      ]
      else ([], "ocr_required", some (no_ocr_warning n))

  abbrev pub needs_ocr_count : Option Text → ℕ
  needs_ocr_count none = 0
  needs_ocr_count (some _) = 1

  abbrev pub option_list : Option Text → List Text
  option_list none = []
  option_list (some w) = w ∷ []

  -- The loop from the page with this index on.
  unfoldable pub scan_pages : Settings → ℕ → List PdfPage → Scan
  unfolding normalise_text
  scan_pages settings index [] = record { pages = []; ocr_required_pages = 0; warnings = [] }
  scan_pages settings index (page ∷ pages) =
      let (text, method, warning) = read_page (index + 1) page in
      let later = scan_pages settings (index + 1) pages in
      if leb settings.extraction_max_pages index
      then record {
        pages = [];
        ocr_required_pages = 0;
        warnings = codes "PDF extraction reached the configured page limit." ∷ [];
      }
      else record {
        pages =
            record {
              page_number = index + 1;
              page_label = codes "Physical PDF page " ++ decimal (index + 1);
              extracted_text = text;
              extraction_method = method;
            }
            ∷ later.pages;
        ocr_required_pages = needs_ocr_count warning + later.ocr_required_pages;
        warnings = option_list warning ++ later.warnings;
      }

  abbrev pub pdf_status : Scan → Bool → ExtractionStatus
  pdf_status scan truncated =
      if not (length scan.pages == 0) && (scan.ocr_required_pages == length scan.pages)
      then ExtractionStatus.ocr_required
      else if not (scan.ocr_required_pages == 0) || truncated
      then ExtractionStatus.partially_processed
      else ExtractionStatus.processed

  abbrev pub pdf_result : Settings → List PdfPage → ExtractionResult
  pdf_result settings document =
      let scan = scan_pages settings 0 document in
      let limited = apply_limits scan.pages settings in
      let truncated = limited.truncated || ltb settings.extraction_max_pages (length document) in
      record {
        parser_name = "PyMuPDF";
        parser_version = readers.pymupdf_version;
        status = pdf_status scan truncated;
        pages = limited.pages;
        total_characters = limited.total;
        warnings = without [] (scan.warnings ++ limited.warnings);
        needs_ocr = not (scan.ocr_required_pages == 0);
        error = none;
      }

  abbrev pub pdf_of : Settings → Option (Option (List PdfPage)) → ExtractionResult
  pdf_of settings none =
      failed "PyMuPDF" readers.pymupdf_version "The PDF could not be parsed safely."
  pdf_of settings (some none) =
      failed "PyMuPDF" readers.pymupdf_version "The PDF failed during text extraction."
  pdf_of settings (some (some document)) = pdf_result settings document

  unfoldable pub extract_pdf : Text → Settings → ExtractionResult
  unfolding scan_pages apply_limits
  extract_pdf path settings = pdf_of settings (readers.pdf_pages path)
