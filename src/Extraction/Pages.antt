-- ===== src/Extraction/Pages.antt =====
-- server/app/services/extraction.py: the extracted pages and the limits on them (`_apply_limits`).
-- Python's integer `text_limit - total` is only used where it is positive, so that the subtraction
-- on ℕ, which stops at 0, agrees with it behind the test.
use legal_bridge.Prelude.{
  ℕ, ◌+◌, ◌-◌, String, Bool, true, false, Option, List, [], ◌∷◌, ◌++◌, ◌||◌, any, length, take, ltb,
  leb, codes, text_eq, if◌then◌else◌,
}
use legal_bridge.Store.Schema.{Text, ExtractionStatus}
use legal_bridge.Config.{Settings}

pub record ExtractedPage : Type 0 where
  pub page_number : ℕ
  pub page_label : Text
  pub extracted_text : Text
  pub extraction_method : String

-- The property `character_count` of a page.
abbrev pub character_count : ExtractedPage → ℕ
character_count page = length page.extracted_text

pub record ExtractionResult : Type 0 where
  pub parser_name : String
  pub parser_version : String
  pub status : ExtractionStatus
  pub pages : List ExtractedPage
  pub total_characters : ℕ
  pub warnings : List Text
  pub needs_ocr : Bool
  pub error : Option String

-- What `_apply_limits` returns.
pub record Limited : Type 0 where
  pub pages : List ExtractedPage
  pub total : ℕ
  pub warnings : List Text
  pub truncated : Bool

-- `text[:limit]` where the text is longer.
abbrev pub clip : ℕ → Text → Text
clip limit text = if ltb limit (length text) then take limit text else text

abbrev pub page_warning : ExtractedPage → Text
page_warning page = page.page_label ++ codes " was truncated at the configured per-page text limit."

abbrev pub text_limit_warning : Text
text_limit_warning = codes "Document extraction reached the configured text limit."

abbrev pub page_limit_warning : Text
page_limit_warning = codes "Document extraction reached the configured page limit."

abbrev pub warn_if : Bool → Text → List Text
warn_if true w = w ∷ []
warn_if false w = []

-- The loop of `_apply_limits` from a page on, when `total` characters have been kept before it.
unfoldable pub limit_pages : Settings → ℕ → List ExtractedPage → Limited
limit_pages settings total [] = record {
  pages = [];
  total = total;
  warnings = [];
  truncated = false;
}
limit_pages settings total (page ∷ pages) =
    let over = ltb settings.extraction_page_text_limit (length page.extracted_text) in
    let text = clip settings.extraction_page_text_limit page.extracted_text in
    let warned = warn_if over (page_warning page) in
    let remaining = settings.extraction_text_limit - total in
    let short = ltb remaining (length text) in
    let kept = clip remaining text in
    let later = limit_pages settings (total + length kept) pages in
    if leb settings.extraction_text_limit total
    then record { pages = []; total = total; warnings = warned; truncated = true }
    else record {
      pages = record page { extracted_text = kept } ∷ later.pages;
      total = later.total;
      warnings = warned ++ (warn_if short text_limit_warning ++ later.warnings);
      truncated = over || short || later.truncated;
    }

-- `dict.fromkeys(warnings)`: the first of equal texts stays.
abbrev pub without : List Text → List Text → List Text
without seen [] = []
without seen (w ∷ ws) =
    let skipped = without seen ws in
    let kept = without (w ∷ seen) ws in if any (text_eq w) seen then skipped else w ∷ kept

unfoldable pub apply_limits : List ExtractedPage → Settings → Limited
unfolding limit_pages
apply_limits pages settings =
    let limited = limit_pages settings 0 (take settings.extraction_max_pages pages) in
    let many = ltb settings.extraction_max_pages (length pages) in
    record {
      pages = limited.pages;
      total = limited.total;
      warnings = without [] (limited.warnings ++ warn_if many page_limit_warning);
      truncated = limited.truncated || many;
    }
