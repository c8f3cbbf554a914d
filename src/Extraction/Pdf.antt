-- ===== src/Extraction/Pdf.antt =====
-- A PDF file that is reported as processed was read in full.
use legal_bridge.Prelude.{
  ℕ, ◌+◌, ◌≤◌, Bool, false, some, List, [], ◌∷◌, ◌≡◌, ◌∙◌, refl, ap, sym, subst, arith, length,
}
use legal_bridge.Store.Schema.{Text, ExtractionStatus}
use legal_bridge.Config.{Settings}
use legal_bridge.Extraction.Pages.{apply_limits}
use legal_bridge.Extraction.Limits.{untruncated_whole}
use legal_bridge.Extraction.Formats.{
  PdfPage, Readers, Scan, scan_pages, pdf_status, pdf_of, pdf_result, extract_pdf,
}

module _ (readers : Readers) (settings : Settings) where
  length-scan :
      (index : ℕ) (document : List PdfPage)
      → index + length document ≤ settings.extraction_max_pages
      → length (scan_pages readers settings index document).pages ≡ length document
  unfolding scan_pages
  length-scan index [] h = refl
  length-scan index (page ∷ document) h =
      ground (arith, length-scan (index + 1) document (omega (arith, h)))

  status_processed :
      (scan : Scan) (truncated : Bool)
      → pdf_status readers scan truncated ≡ ExtractionStatus.processed
      → (truncated ≡ false) × (scan.ocr_required_pages ≡ 0)
  status_processed scan truncated h = ground arith

  result_complete :
      (document : List PdfPage)
      → (pdf_result readers settings document).status ≡ ExtractionStatus.processed
      → (length (pdf_result readers settings document).pages ≡ length document)
        × ((pdf_result readers settings document).needs_ocr ≡ false)
  result_complete document h =
      let scan = scan_pages readers settings 0 document in
      let limited = apply_limits scan.pages settings in
      let (t, z) = status_processed scan _ h in
      let quiet : limited.truncated ≡ false = ground arith in
      let few : length document ≤ settings.extraction_max_pages = ground arith in
      (
        ap length (untruncated_whole scan.pages settings quiet)
            ∙ length-scan 0 document (omega (arith, few)),
        ground (arith, z),
      )

  -- A PDF file that was opened and read and is reported as processed has all of its pages in the
  -- result, and none of them is left to OCR.
  pub processed_pdf_complete :
      (path : Text) (document : List PdfPage)
      → readers.pdf_pages path ≡ some (some document)
      → (extract_pdf readers path settings).status ≡ ExtractionStatus.processed
      → (length (extract_pdf readers path settings).pages ≡ length document)
        × ((extract_pdf readers path settings).needs_ocr ≡ false)
  unfolding extract_pdf
  processed_pdf_complete path document e h =
      subst
        (λ file.
          (pdf_of readers settings file).status ≡ ExtractionStatus.processed
          → (length (pdf_of readers settings file).pages ≡ length document)
            × ((pdf_of readers settings file).needs_ocr ≡ false))
        (sym e) (result_complete document) h
