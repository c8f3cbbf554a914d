-- ===== src/Extraction/Limits.antt =====
-- The configured limits hold of what `_apply_limits` keeps, and it cuts nothing that fits.
use legal_bridge.Prelude.{
  ℕ, zero, suc, ◌+◌, ◌-◌, ◌≤◌, ◌<◌, false, List, [], ◌∷◌, ◌++◌, ◌≡◌, refl, arith, length, take, All,
  ap, sym, subst, ◌∙◌, append-nil, append_assoc, if-both, take-append-drop, drop, leb, ltb,
  length-take,
}
use legal_bridge.Store.Schema.{Text}
use legal_bridge.Config.{Settings}
use legal_bridge.Extraction.Pages.{
  ExtractedPage, character_count, Limited, clip, limit_pages, apply_limits,
}

abbrev pub characters : List ExtractedPage → ℕ
characters [] = 0
characters (page ∷ pages) = character_count page + characters pages

-- The pages kept, one by one, are the first pages given: each has its number, its label and its
-- method, and the start of its text.
pub data Kept : List ExtractedPage → List ExtractedPage → Type 0 where
  none_kept : {given : List ExtractedPage} → Kept [] given
  page_kept :
      {page : ExtractedPage} {text : Text} {kept given : List ExtractedPage} (cut : Text)
      → page.extracted_text ≡ text ++ cut
      → Kept kept given
      → Kept (record page { extracted_text = text } ∷ kept) (page ∷ given)

length-clip : (n : ℕ) (t : Text) → length (clip n t) ≤ n
length-clip n t = ground (arith, length-take n t)

length-clip_shrinks : (n : ℕ) (t : Text) → length (clip n t) ≤ length t
length-clip_shrinks n t = ground (arith, length-take n t)

module _ (settings : Settings) where
  abbrev pub FitsPage : ExtractedPage → Type 0
  FitsPage page = character_count page ≤ settings.extraction_page_text_limit

  limit_pages-total :
      (total : ℕ) (pages : List ExtractedPage)
      → let limited = limit_pages settings total pages in
        limited.total ≡ total + characters limited.pages
  unfolding limit_pages
  limit_pages-total total [] = omega arith
  limit_pages-total total (page ∷ pages) =
      let kept =
        clip (settings.extraction_text_limit - total)
          (clip settings.extraction_page_text_limit page.extracted_text) in
      ground (arith, limit_pages-total (total + length kept) pages)

  limit_pages-bounded :
      (total : ℕ) (pages : List ExtractedPage)
      → total ≤ settings.extraction_text_limit
      → (limit_pages settings total pages).total ≤ settings.extraction_text_limit
  unfolding limit_pages
  limit_pages-bounded total [] h = h
  limit_pages-bounded total (page ∷ pages) h =
      let kept =
        clip (settings.extraction_text_limit - total)
          (clip settings.extraction_page_text_limit page.extracted_text) in
      let bound =
        length-clip (settings.extraction_text_limit - total)
          (clip settings.extraction_page_text_limit page.extracted_text) in
      ground (arith, bound, limit_pages-bounded (total + length kept) pages)

  limit_pages-FitsPage :
      (total : ℕ) (pages : List ExtractedPage)
      → All FitsPage (limit_pages settings total pages).pages
  unfolding limit_pages
  limit_pages-FitsPage total [] = tt
  limit_pages-FitsPage total (page ∷ pages) =
      let text = clip settings.extraction_page_text_limit page.extracted_text in
      let kept = clip (settings.extraction_text_limit - total) text in
      let shrinks = length-clip_shrinks (settings.extraction_text_limit - total) text in
      let bound = length-clip settings.extraction_page_text_limit page.extracted_text in
      ground (arith, bound, shrinks, limit_pages-FitsPage (total + length kept) pages)

-- What `clip` cuts off.
clip-cut : (n : ℕ) (t : Text) → (cut : Text) × (t ≡ clip n t ++ cut)
clip-cut n t =
    if-both (λ r. (cut : Text) × (t ≡ r ++ cut)) (ltb n (length t))
      (drop n t, sym (take-append-drop n t)) ([], sym (append-nil t))

clip_twice-cut : (m n : ℕ) (t : Text) → (cut : Text) × (t ≡ clip m (clip n t) ++ cut)
clip_twice-cut m n t =
    let (a, e) = clip-cut n t in
    let (b, f) = clip-cut m (clip n t) in
    (b ++ a, e ∙ ap (λ r. r ++ a) f ∙ append_assoc (clip m (clip n t)) b a)

module _ (settings : Settings) where
  limit_pages-Kept :
      (total : ℕ) (pages : List ExtractedPage) → Kept (limit_pages settings total pages).pages pages
  unfolding limit_pages
  limit_pages-Kept total [] = none_kept
  limit_pages-Kept total (page ∷ pages) =
      let text = clip settings.extraction_page_text_limit page.extracted_text in
      let kept = clip (settings.extraction_text_limit - total) text in
      let (cut, e) =
        clip_twice-cut (settings.extraction_text_limit - total) settings.extraction_page_text_limit
          page.extracted_text in
      if-both (λ (l : Limited). Kept l.pages (page ∷ pages))
        (leb settings.extraction_text_limit total) none_kept
        (page_kept cut e (limit_pages-Kept (total + length kept) pages))

  -- Nothing is cut where the loop does not say so.
  limit_pages-untouched :
      (total : ℕ) (pages : List ExtractedPage)
      → (limit_pages settings total pages).truncated ≡ false
      → (limit_pages settings total pages).pages ≡ pages
  unfolding limit_pages
  limit_pages-untouched total [] h = refl
  limit_pages-untouched total (page ∷ pages) h =
      let text = clip settings.extraction_page_text_limit page.extracted_text in
      let kept = clip (settings.extraction_text_limit - total) text in
      ground (arith, limit_pages-untouched (total + length kept) pages)

  -- Nothing is cut where everything fits, with room for one more character.
  limit_pages-fits :
      (total : ℕ) (pages : List ExtractedPage)
      → All (FitsPage settings) pages
      → total + characters pages < settings.extraction_text_limit
      → (limit_pages settings total pages).truncated ≡ false
  unfolding limit_pages
  limit_pages-fits total [] h k = refl
  limit_pages-fits total (page ∷ pages) h k =
      let text = clip settings.extraction_page_text_limit page.extracted_text in
      let kept = clip (settings.extraction_text_limit - total) text in
      ground (arith, h.0, limit_pages-fits (total + length kept) pages h.1)

Kept-append :
    {kept given : List ExtractedPage} (more : List ExtractedPage)
    → Kept kept given
    → Kept kept (given ++ more)
Kept-append more none_kept = none_kept
Kept-append more (page_kept cut e k) = page_kept cut e (Kept-append more k)

Kept-length : {kept given : List ExtractedPage} → Kept kept given → length kept ≤ length given
Kept-length none_kept = omega arith
Kept-length (page_kept cut e k) = omega (arith, Kept-length k)

take_all : (n : ℕ) (pages : List ExtractedPage) → length pages ≤ n → take n pages ≡ pages
take_all zero [] h = refl
take_all zero (page ∷ pages) h = ground (arith, h)
take_all (suc n) [] h = refl
take_all (suc n) (page ∷ pages) h = ap (λ r. page ∷ r) (take_all n pages (omega (arith, h)))

-- What `_apply_limits` keeps: as many characters as it reports, within the limits on the document's
-- text, on each page's text and on the number of pages; and the pages kept are the first ones given,
-- with their numbers, labels and methods, each with the start of its text.
pub limits_hold :
    (pages : List ExtractedPage) (settings : Settings)
    → let limited = apply_limits pages settings in
      (limited.total ≡ characters limited.pages)
      × (limited.total ≤ settings.extraction_text_limit)
      × All (FitsPage settings) limited.pages
      × (length limited.pages ≤ settings.extraction_max_pages)
      × Kept limited.pages pages
unfolding apply_limits
limits_hold pages settings =
    let given = take settings.extraction_max_pages pages in
    let k = limit_pages-Kept settings 0 given in
    (
      omega (arith, limit_pages-total settings 0 given),
      limit_pages-bounded settings 0 given (omega arith),
      limit_pages-FitsPage settings 0 given,
      omega (arith, Kept-length k, length-take settings.extraction_max_pages pages),
      subst (λ r. Kept (limit_pages settings 0 given).pages r)
          (take-append-drop settings.extraction_max_pages pages)
          (Kept-append (drop settings.extraction_max_pages pages) k),
    )

-- Where `_apply_limits` reports no truncation it returns the pages as they were given.
pub untruncated_whole :
    (pages : List ExtractedPage) (settings : Settings)
    → (apply_limits pages settings).truncated ≡ false
    → (apply_limits pages settings).pages ≡ pages
unfolding apply_limits
untruncated_whole pages settings h =
    let given = take settings.extraction_max_pages pages in
    let few : length pages ≤ settings.extraction_max_pages = ground arith in
    let quiet : (limit_pages settings 0 given).truncated ≡ false = ground arith in
    limit_pages-untouched settings 0 given quiet ∙ take_all settings.extraction_max_pages pages few

-- No truncation is reported, and nothing is cut, where there are at most as many pages as allowed,
-- no page is longer than allowed, and all of them are together shorter than the limit on the
-- document's text.
pub short_untruncated :
    (pages : List ExtractedPage) (settings : Settings)
    → length pages ≤ settings.extraction_max_pages
    → All (FitsPage settings) pages
    → characters pages < settings.extraction_text_limit
    → ((apply_limits pages settings).truncated ≡ false)
      × ((apply_limits pages settings).pages ≡ pages)
unfolding apply_limits
short_untruncated pages settings few fits short =
    let e = take_all settings.extraction_max_pages pages few in
    let quiet : (limit_pages settings 0 (take settings.extraction_max_pages pages)).truncated
        ≡ false =
      subst (λ r. (limit_pages settings 0 r).truncated ≡ false) (sym e)
        (limit_pages-fits settings 0 pages fits (omega (arith, short))) in
    let whole : (apply_limits pages settings).truncated ≡ false = ground (arith, quiet) in
    (whole, untruncated_whole pages settings whole)
