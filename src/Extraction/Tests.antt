-- ===== src/Extraction/Tests.antt =====
-- The theorems of the extraction at small inputs.
use legal_bridge.Prelude.{
  ℕ, true, false, none, some, List, [], ◌∷◌, ◌≡◌, refl, map, arith, All, join, flatten, codes,
}
use legal_bridge.Store.Schema.{Text, ExtractionStatus}
use legal_bridge.Auth.Tests.{settings}
use legal_bridge.Config.{Settings}
use legal_bridge.Extraction.Pages.{ExtractedPage, apply_limits}
use legal_bridge.Extraction.Sections.{blank_line, split_section}
use legal_bridge.Extraction.Texts.{chunk_text}
use legal_bridge.Extraction.Packing.{Fits, Numbered, split_section_packs}
use legal_bridge.Extraction.Formats.{PdfPage, Readers, extract_pdf}
use legal_bridge.Extraction.Documents.{extract_document}
use legal_bridge.Extraction.Sound.{Sound, extract_document-Sound}

-- Two pages of at most six characters each, ten in all.
abbrev pub tight : Settings
tight = record settings {
  extraction_text_limit = 10;
  extraction_page_text_limit = 6;
  extraction_max_pages = 2;
}

abbrev page : ℕ → Text → ExtractedPage
page n text = record {
  page_number = n;
  page_label = codes "Page";
  extracted_text = text;
  extraction_method = "txt_logical_page";
}

abbrev page_text : ExtractedPage → Text
page_text p = p.extracted_text

abbrev long_pages : List ExtractedPage
long_pages = page 1 (codes "abcdefgh") ∷ page 2 (codes "ijklm") ∷ page 3 (codes "n") ∷ []

cuts : map page_text (apply_limits long_pages tight).pages ≡ codes "abcdef" ∷ codes "ijkl" ∷ []
unfolding apply_limits
cuts = refl

abbrev blocks : List Text
blocks = codes "One" ∷ codes "A paragraph" ∷ codes "b" ∷ []

split_section_packs_example :
    let pages = split_section none 4 6 blocks in
    All (Fits none 4 6) pages
    × Numbered 4 pages
    × ((groups : List (List Text)) × (map page_text pages ≡ map (join blank_line) groups)
        × (flatten (flatten groups) ≡ flatten blocks))
split_section_packs_example = split_section_packs none 4 6 blocks (omega arith)

packs :
    map page_text (split_section none 4 6 blocks)
    ≡ codes "One" ∷ codes "A para" ∷ codes "graph" ∷ codes "b" ∷ []
unfolding split_section join
packs = refl

abbrev prose : Text
prose = codes "ab\n\ncd\n\n\nefghijkl"

chunks : chunk_text 6 prose ≡ codes "ab\n\ncd" ∷ codes "efghij" ∷ codes "kl" ∷ []
unfolding chunk_text
chunks = refl

abbrev scanned : PdfPage
scanned = record { embedded = codes "A page with more than twenty letters"; ocr = none }

-- Every file is a PDF file of one page, a text of its own name, or no DOCX file.
abbrev pub readers : Readers
readers = record {
  pymupdf_version = "1";
  docx_version = "1";
  pdf_pages = λ path. some (some (scanned ∷ []));
  ocr_available = false;
  is_word = λ c. true;
  docx_blocks = λ path. none;
  txt_bytes = λ path. some path;
  decode_text = λ data_read truncated. some (data_read, codes "UTF-8");
}

extract_document-Sound_example : Sound tight (extract_document readers prose "text/plain" tight)
extract_document-Sound_example = extract_document-Sound readers tight prose "text/plain"

processed : (extract_pdf readers (codes "a.pdf") settings).status ≡ ExtractionStatus.processed
unfolding extract_pdf
processed = refl
