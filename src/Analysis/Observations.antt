-- ===== src/Analysis/Observations.antt =====
-- server/app/services/analysis.py: the sources of a case, the observations on them, and the tables
-- of labels and titles.
use legal_bridge.Prelude.{
  ℕ, String, Bool, true, false, Option, none, some, List, [], ◌∷◌, ◌++◌, ◌&&◌, ◌||◌, ◌==◌, filter,
  sort_by, map, take, leb, codes, text_eq, text_le, join, if◌then◌else◌,
}
use legal_bridge.Store.Schema.{Uuid, Text, ExtractionStatus, DocumentRecord, DocumentPage, Db}
use legal_bridge.Extraction.Texts.{is_empty_text, is_space, strip, lstrip, rstrip}
use legal_bridge.Motions.Checks.{with_document}
use legal_bridge.Analysis.Patterns.{Python, Fields, find_records, find_time, find_date, day_of}

abbrev pub Source : Type 0
Source = DocumentPage × DocumentRecord

abbrev pub is_processed : ExtractionStatus → Bool
is_processed ExtractionStatus.processed = true
is_processed _ = false

-- `order_by(DocumentRecord.original_filename, DocumentPage.page_number)`
abbrev pub source_le : Source → Source → Bool
source_le (p, d) (q, e) =
    if text_eq (codes d.original_filename) (codes e.original_filename)
    then leb p.page_number q.page_number
    else text_le (codes d.original_filename) (codes e.original_filename)

unfoldable pub load_sources : Uuid → Uuid → Db → List Source
load_sources organization_id case_id db = sort_by source_le (
    filter (λ (s : Source). is_processed s.1.extraction_status)
      (with_document db.documents (
        filter (λ p. (p.organization_id == organization_id) && (p.case_id == case_id))
          db.document_pages)))

pub record SourceObservation : Type 0 where
  pub key : Text
  pub value : Text
  pub detail : Text
  pub page : DocumentPage
  pub document : DocumentRecord
  pub excerpt : Text

abbrev pub is_key_char : ℕ → Bool
is_key_char c = (leb 97 c && leb c 122) || (leb 48 c && leb c 57)

-- `re.sub(r"[^a-z0-9]+", "_", text)`; the flag says that the last character was replaced.
unfoldable pub underscored : Bool → Text → Text
underscored replaced [] = []
underscored replaced (c ∷ cs) =
    let kept = c ∷ underscored false cs in
    let run = underscored true cs in
    if is_key_char c then kept else if replaced then run else 95 ∷ run

abbrev pub is_underscore : ℕ → Bool
is_underscore c = c == 95

-- `text.split()`, with the word that is being read.
unfoldable pub words : Text → Text → List Text
words word [] = if is_empty_text word then [] else word ∷ []
words word (c ∷ cs) =
    let longer = words (word ++ c ∷ []) cs in
    let next = words [] cs in
    if is_space c then (if is_empty_text word then next else word ∷ next) else longer

module _ (python : Python) where
  unfoldable pub observation_key : Text → Text
  unfolding underscored lstrip rstrip strip
  observation_key raw =
      lstrip is_underscore (rstrip is_underscore (underscored false (python.lowercase (strip raw))))

  unfoldable pub observation : Source → Fields → SourceObservation
  unfolding observation_key
  observation (page, document) fields =
      let value = strip fields.value in
      let detail = strip fields.detail in
      record {
        key = observation_key fields.key;
        value = value;
        detail = detail;
        page = page;
        document = document;
        excerpt = strip fields.key ++ (codes ": " ++ (value ++ (codes ". " ++ detail)));
      }

  unfoldable pub source_observations : List Source → List SourceObservation
  unfolding observation find_records
  source_observations [] = []
  source_observations (source ∷ sources) =
      map (observation source) (find_records true 0 source.0.extracted_text)
      ++ source_observations sources

  unfoldable pub observation_time : SourceObservation → Option ℕ
  unfolding find_time
  observation_time o = find_time python false o.value

  unfoldable pub document_date : DocumentPage → Option ℕ
  unfolding find_date
  document_date page = day_of python (find_date python true page.extracted_text)

-- `DeterministicAnalysisProvider.source_excerpt`; the number of the item is given with it.
unfoldable pub source_excerpt : DocumentPage → Text → Text
unfolding words join
source_excerpt page item =
    let normalized = join (codes " ") (words [] page.extracted_text) in
    if is_empty_text normalized
    then codes "Source page "
      ++ (page.page_label ++ (codes "; extracted text was empty (item " ++ (item ++ codes ").")))
    else take 280 normalized

abbrev pub titled : Text → List (String × String) → Option String
titled key [] = none
titled key ((k, v) ∷ table) = if text_eq (codes k) key then some v else titled key table

abbrev pub fact_labels : List (String × String)
fact_labels =
    ("person", "Person")
    ∷ ("incident_time", "Incident time")
    ∷ ("location", "Location")
    ∷ ("custody_time", "Custody entry")
    ∷ ("arrest_time", "Arrest reference")
    ∷ ("seal_code", "Seal number")
    ∷ ("device_id", "Device identifier")
    ∷ ("clothing", "Clothing description")
    ∷ ("electronic_export_time", "Electronic-record event")
    ∷ ("medical_time", "Medical observation")
    ∷ ("transport_arrival_time", "Transport arrival")
    ∷ ("identification_time", "Identification event")
    ∷ ("authorisation_time", "Authorisation event")
    ∷ ("search_start_time", "Search start")
    ∷ ("officer_arrival_time", "Officer arrival")
    ∷ ("officers_departure_time", "Officer departure")
    ∷ ("witness_event_time", "Witness event")
    ∷ ("laptop_sealed_time", "Laptop sealing")
    ∷ ("property_register_time", "Property register entry")
    ∷ ("cctv_export_time", "CCTV export")
    ∷ ("certificate_export_time", "Certificate export time")
    ∷ ("single_photo_identification_time", "Single-photo identification")
    ∷ ("formal_photo_array_time", "Formal photo array")
    ∷ ("bag_description", "Bag description")
    ∷ ("checksum", "CCTV checksum")
    ∷ ("electronic_certificate", "Electronic-record certificate")
    ∷ []

abbrev pub timeline_titles : List (String × String)
timeline_titles =
    ("incident_time", "Witness reported the incident")
    ∷ ("custody_time", "Custody entry was created")
    ∷ ("arrest_time", "Arrest memo was signed")
    ∷ ("electronic_export_time", "Electronic record was exported")
    ∷ ("medical_time", "Medical observation was recorded")
    ∷ ("transport_arrival_time", "Transport arrival was recorded")
    ∷ ("identification_time", "Witness identification was conducted")
    ∷ ("authorisation_time", "Procedure authorisation was recorded")
    ∷ ("search_start_time", "Search began")
    ∷ ("officer_arrival_time", "Officers arrived")
    ∷ ("officers_departure_time", "Officers left the station")
    ∷ ("witness_event_time", "Witness event was recorded")
    ∷ ("laptop_sealed_time", "Laptop was sealed")
    ∷ ("property_register_time", "Property register entry was made")
    ∷ ("cctv_export_time", "CCTV export was created")
    ∷ ("certificate_export_time", "Certificate export time was recorded")
    ∷ ("single_photo_identification_time", "Single-photo identification was conducted")
    ∷ ("formal_photo_array_time", "Formal photo array was conducted")
    ∷ ("seal_code", "Device was sealed")
    ∷ []

abbrev pub contradiction_titles : List (String × String)
contradiction_titles =
    ("incident_time", "Witness accounts record different incident times")
    ∷ ("location", "Records identify different incident locations")
    ∷ ("custody_time", "Custody start time differs across records")
    ∷ ("arrest_time", "Arrest time differs across records")
    ∷ ("seal_code", "Seizure seal code is inconsistent across records")
    ∷ ("clothing", "Witnesses provide different clothing descriptions")
    ∷ ("electronic_export_time", "Electronic export time differs from the recorded chronology")
    ∷ ("medical_time", "Medical observation time differs across records")
    ∷ ("identification_time", "Identification sequence requires reconciliation")
    ∷ ("witness_event_time", "Witness accounts record different event times")
    ∷ ("bag_description", "Witnesses provide different bag descriptions")
    ∷ ("checksum", "CCTV checksum is inconsistent across records")
    ∷ ("cctv_export_time", "CCTV export time differs from the certificate chronology")
    ∷ []
