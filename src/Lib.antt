-- ===== src/Lib.antt =====
-- A model of the claims workbench backend: how a first notice of loss (FNOL) is read, checked, and
-- turned into a claim. The code is under `app/`. A notification (`FNOLCase`) moves through a status
-- machine; every processing run collects exceptions, writes them to the exception table, and derives
-- the status from the open ones; an officer resolves them; and a notification with nothing blocking
-- becomes a claim.
--
-- Which file models which part:
-- Enums: the enumerations of `app/domain/enums.py`, each with its members, their ranks and its
--   equality test. Enums/Assessment also has the values that are read back from a column.
-- References: `app/domain/references.py`, `format_reference` and `parse_reference`, the digits that are
--   written (References/Digits), how they are read back (References/RoundTrip) and that different
--   numbers are written differently (References/Distinct).
-- Model: the rows of `app/models/`. The attributes of a case that the code reads and writes through
--   `getattr` and `setattr` are functions of the attribute's name (Model/Case); Model/Db has the tables.
-- Rules: the required fields of `app/domain/rules.py`.
-- Lifecycle: `app/domain/lifecycle.py`, with what its tables amount to over sequences of moves
--   (Lifecycle/Transitions) and what `derive_status` promises (Lifecycle/Derived).
-- Repository: the tables behind `app/repositories/`, written over the keyed lists of Common/Table; the
--   references that many calls hand out are in Repository/Issued.
-- Completeness: `assess_completeness` of `app/domain/assessment.py`, with its score and its lists
--   (Completeness/Score, Completeness/Missing).
-- Assessment: `assess_severity` (Assessment/SeverityBand) and `assess_coverage` (Assessment/Coverage) of
--   the same file, with what the band is (Assessment/SeverityBand/Floors) and when a loss is likely
--   covered (Assessment/Coverage/Verdict).
-- Exceptions: `ExceptionService` of `app/services/fnol/exceptions.py`, with the state it leaves
--   (Exceptions/Persisted) and how the status follows from it (Exceptions/Ready).
-- Signals: the phrases that triage looks for in the text of a case (`app/domain/rules.py`,
--   `app/domain/assessment.py`, and `normalise` of `app/domain/matching.py`).
-- Triage: `app/domain/triage.py`: the steps of `triage` (Triage, Triage/Classify), what it decides
--   (Triage/Routing), the scoring of handlers (Triage/Handlers) and the choice (Triage/Best).
-- TriageService: `app/services/fnol/triage.py`: `TriageService`, and `AssignmentService` in
--   TriageService/Assignment; what survives a later run is in TriageService/Kept,
--   /Overridden and /Owned.
-- Repository/Fields: the provenance rows of `app/repositories/fnol.py`, which tell a human's value
--   from a machine's.
-- Normalisation: `app/domain/normalisation.py`, the parsers of a field's text, with the bounds of what
--   they let through (Normalisation/Bounds).
-- Session: the case that a service works on, and the tables.
-- Edits: `update_fields` of `app/services/fnol/service.py`: how the input is read (Edits), what a change
--   writes (Edits/Update), and what it keeps (Edits/Typed, Edits/Unchanged).
-- Extraction: `apply` of `app/services/fnol/extraction.py` over the records of `app/domain/extraction.py`:
--   the values (Extraction), the writes (Extraction/Apply), and what they keep (Extraction/Human,
--   Extraction/Corrected, Extraction/Typed). The labels of the fields are in Rules/FieldMeta, the
--   parties in Repository/Parties.
-- Matching: `app/domain/matching.py`: the scores (Matching), the longest common subsequence that
--   `sequence_ratio` counts (Matching/Subsequence, Matching/Lcs), the two rows of its loops
--   (Matching/Rows) and the laws of its score (Matching/Scores).
-- PolicyMatch: `app/domain/policy_match.py`, with what an exact match is (PolicyMatch/Bound).
-- PolicyMatching: `PolicyMatchingService` of `app/services/fnol/matching.py` over the candidates of
--   Repository/PolicyMatches: what a run binds by itself (PolicyMatching/Automatic), and that an
--   officer's choice stands (PolicyMatching/Chosen, PolicyMatching/Confirmed).
-- Decisions: the overrides and resolutions of `app/services/fnol/service.py` over the candidates of
--   Repository/Duplicates: when the exception of a duplicate goes (Decisions/Duplicates), and that an
--   exception is decided once (Decisions/Exceptions).
-- DuplicateDetection: `app/domain/duplicates.py` and `DuplicateDetectionService` of
--   `app/services/fnol/matching.py`; what an officer decided outlasts a scan (DuplicateDetection/Kept).
-- StatusService: `refresh_status` and `transition` of `app/services/fnol/service.py`.
-- Audit: `app/services/fnol/audit.py`, which adds rows to the trail.
-- ClaimCreation: `app/services/fnol/claims.py`: the checklist, the transaction (ClaimCreation/Create),
--   when it is refused (ClaimCreation/Refused), what it writes (ClaimCreation/Stored) and that it
--   happens once (ClaimCreation/Once).
-- Common: shared tests, lists, equality as an interface, and keyed tables.
-- Examples: fixtures, and each theorem applied to one.
--
-- The database is one value, as one session sees it: a row lock is the transaction's, and a function
-- that takes and returns the database is one transaction. A row that the code mutates in place is
-- changed in its table. Identifiers, times and amounts are natural numbers, and times count
-- microseconds. A confidence is in hundredths. The sentence of an exception is the data that it is
-- rendered from. No loop needs a bound that the code does not give: all are recursions on lists, but
-- `decimal`, which has fuel above the number that it writes.
--
-- Python's text functions, regular expressions, Unicode normalisation, the class of digits, decimals,
-- the calendar and the clock are parameters. A score is the exact fraction where the code rounds a
-- float. Not modelled: the web layer, the workers, the providers of AI, the document readers, the
-- processing pipeline, the documents and notes of a case, the fraud indicators, and the matching of
-- catastrophes, because they are input and output, floats over free text, or calls of services outside
-- the repository, or stand apart from the parts that are modelled.
pub mod Common
pub mod Enums
pub mod References
pub mod Model
pub mod Rules
pub mod Lifecycle
pub mod Repository
pub mod Completeness
pub mod Exceptions
pub mod Assessment
pub mod Audit
pub mod ClaimCreation
pub mod Decisions
pub mod DuplicateDetection
pub mod Edits
pub mod Extraction
pub mod Matching
pub mod Normalisation
pub mod PolicyMatch
pub mod PolicyMatching
pub mod Session
pub mod Signals
pub mod StatusService
pub mod Triage
pub mod TriageService
pub mod Examples
