-- ===== src/Extraction/Documents.antt =====
-- server/app/services/extraction.py: `_extract_docx`, `_extract_txt` and `extract_document`.
use legal_bridge.Prelude.{
  ℕ, ◌+◌, ◌*◌, min, String, Bool, true, false, Option, none, some, List, [], ◌∷◌, ◌++◌, ◌||◌,
  str_eq, any, length, take, ltb, ◌==◌, codes, decimal, lower, is_prefix, if◌then◌else◌,
}
use legal_bridge.Store.Schema.{Text, ExtractionStatus}
use legal_bridge.Config.{Settings}
use legal_bridge.Extraction.Pages.{ExtractedPage, ExtractionResult, Limited, apply_limits, without}
use legal_bridge.Extraction.Sections.{is_empty, split_section}
use legal_bridge.Extraction.Texts.{is_empty_text, normalise_text, table_text, split_on, chunk_text}
use legal_bridge.Extraction.Formats.{Block, paragraph, table, Readers, failed, extract_pdf}

-- The loop over the blocks of a DOCX file: the sections closed so far, and the open one.
pub record Outline : Type 0 where
  pub sections : List (Option Text × List Text)
  pub heading : Option Text
  pub blocks : List Text

abbrev pub close_section : Outline → List (Option Text × List Text)
close_section o = if is_empty o.blocks then o.sections else o.sections ++ (o.heading, o.blocks) ∷ []

abbrev pub is_heading : Text → Bool
is_heading style_name = is_prefix (codes "heading") (lower style_name)

unfoldable pub add_block : Outline → Block → Outline
unfolding normalise_text table_text
add_block o (paragraph raw style_name) =
    let text = normalise_text false raw in
    if is_empty_text text
    then o
    else if is_heading style_name
    then record { sections = close_section o; heading = some text; blocks = text ∷ [] }
    else record o { blocks = o.blocks ++ text ∷ [] }
add_block o (table rows) =
    let text = table_text rows in
    if is_empty_text text
    then o
    else record o { blocks = o.blocks ++ (codes "Table\n" ++ text) ∷ [] }

unfoldable pub add_blocks : Outline → List Block → Outline
unfolding add_block
add_blocks o [] = o
add_blocks o (block ∷ blocks) = add_blocks (add_block o block) blocks

-- The pages of the sections, numbered through, behind the pages so far.
unfoldable pub section_pages :
    ℕ → List ExtractedPage → List (Option Text × List Text) → List ExtractedPage
unfolding split_section
section_pages chunk_size pages [] = pages
section_pages chunk_size pages ((heading, blocks) ∷ sections) =
    section_pages chunk_size (pages ++ split_section heading (length pages + 1) chunk_size blocks)
      sections

abbrev pub empty_section : ExtractedPage
empty_section = record {
  page_number = 1;
  page_label = codes "Logical DOCX section 1";
  extracted_text = [];
  extraction_method = "docx_logical_section";
}

abbrev pub or_empty_section : List ExtractedPage → List ExtractedPage
or_empty_section [] = empty_section ∷ []
or_empty_section (page ∷ pages) = page ∷ pages

abbrev pub completeness : Bool → ExtractionStatus
completeness truncated =
    if truncated then ExtractionStatus.partially_processed else ExtractionStatus.processed

abbrev pub limited_result : String → String → Bool → List Text → Limited → ExtractionResult
limited_result parser_name parser_version truncated warnings limited = record {
  parser_name = parser_name;
  parser_version = parser_version;
  status = completeness truncated;
  pages = limited.pages;
  total_characters = limited.total;
  warnings = warnings;
  needs_ocr = false;
  error = none;
}

-- A page of a text, normalised.
abbrev pub text_page : Text → Text → String → ℕ → Text → ExtractedPage
text_page before after method n chunk = record {
  page_number = n;
  page_label = before ++ (decimal n ++ after);
  extracted_text = normalise_text false chunk;
  extraction_method = method;
}

abbrev pub text_pages : Text → Text → String → ℕ → List Text → List ExtractedPage
text_pages before after method n [] = []
text_pages before after method n (chunk ∷ chunks) =
    text_page before after method n chunk ∷ text_pages before after method (n + 1) chunks

-- The pages of a normalised text: by form feeds where it has any, else by its paragraphs.
unfoldable pub paginate : Settings → Text → List ExtractedPage
unfolding split_on chunk_text normalise_text
paginate settings normalized =
    if any (λ c. c == 12) normalized
    then text_pages (codes "Text page ") (codes " (form-feed)") "txt_form_feed" 1
        (split_on 12 normalized)
    else text_pages (codes "Logical text page ") [] "txt_logical_page" 1
        (chunk_text (min 12000 settings.extraction_page_text_limit) normalized)

module _ (readers : Readers) where
  abbrev pub docx_result : Settings → List Block → ExtractionResult
  docx_result settings document =
      let outline = add_blocks (record { sections = []; heading = none; blocks = [] }) document in
      let chunk_size = min 20000 settings.extraction_page_text_limit in
      let pages = section_pages chunk_size [] (close_section outline) in
      let limited = apply_limits (or_empty_section pages) settings in
      limited_result "python-docx" readers.docx_version limited.truncated limited.warnings limited

  abbrev pub docx_of : Settings → Option (List Block) → ExtractionResult
  docx_of settings none =
      failed "python-docx" readers.docx_version "The DOCX could not be parsed safely."
  docx_of settings (some document) = docx_result settings document

  unfoldable pub extract_docx : Text → Settings → ExtractionResult
  unfolding add_blocks section_pages apply_limits
  extract_docx path settings = docx_of settings (readers.docx_blocks path)

  abbrev pub byte_limit : Settings → ℕ
  byte_limit settings = settings.extraction_text_limit * 4 + 4

  abbrev pub txt_result : Settings → Bool → Text × Text → ExtractionResult
  txt_result settings truncated_input (decoded, encoding_label) =
      let pages = paginate settings (normalise_text true decoded) in
      let limited = apply_limits pages settings in
      let input_warning =
        if truncated_input
        then codes "TXT input exceeded the configured extraction byte budget." ∷ []
        else [] in
      limited_result "controlled-text-decoder" "1.0" (truncated_input || limited.truncated)
        (without [] (
          (codes "Decoded as " ++ (encoding_label ++ codes "."))
          ∷ (input_warning ++ limited.warnings)))
        limited

  abbrev pub decoded_of : Settings → Bool → Option (Text × Text) → ExtractionResult
  decoded_of settings truncated_input none =
      failed "controlled-text-decoder" "1.0"
        "The TXT file could not be decoded using a controlled text encoding."
  decoded_of settings truncated_input (some decoded) = txt_result settings truncated_input decoded

  -- At most one byte more than the limit is read, which tells whether there are more.
  abbrev pub txt_of : Settings → Option (List ℕ) → ExtractionResult
  txt_of settings none = failed "controlled-text-decoder" "1.0" "The TXT file could not be read."
  txt_of settings (some content) =
      let data_read = take (byte_limit settings + 1) content in
      let truncated_input = ltb (byte_limit settings) (length data_read) in
      decoded_of settings truncated_input
        (readers.decode_text (take (byte_limit settings) data_read) truncated_input)

  unfoldable pub extract_txt : Text → Settings → ExtractionResult
  unfolding paginate normalise_text apply_limits
  extract_txt path settings = txt_of settings (readers.txt_bytes path)

  unfoldable pub extract_document : Text → String → Settings → ExtractionResult
  unfolding extract_pdf extract_docx extract_txt
  extract_document path content_type settings =
      if str_eq content_type "application/pdf"
      then extract_pdf readers path settings
      else if str_eq content_type
          "application/vnd.openxmlformats-officedocument.wordprocessingml.document"
      then extract_docx path settings
      else if str_eq content_type "text/plain"
      then extract_txt path settings
      else failed "unsupported" "0" "No extractor exists for this content type."
