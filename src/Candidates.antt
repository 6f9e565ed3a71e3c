-- ===== src/Candidates.antt =====
-- src/impostarr/plugins/base.py: what an identifier plugin reports, and the two validators that
-- every report has passed. Identifiers and episode numbers are natural numbers. A candidate's
-- `evidence` and a result's `reason` text are left out, but for whether a reason is given.
use impostarr.Prelude.{ℕ, String, Bool, true, false, not, ◌&&◌, Option, none, some, List, any}

pub record ExternalIds : Type 0 where
  pub tvdb : Option ℕ
  pub tmdb : Option ℕ
  pub imdb : Option String

-- `series: Literal["claimed"] | ExternalIds`
pub data SeriesRef : Type 0 where
  claimed_series : SeriesRef
  external : ExternalIds → SeriesRef

pub record CandidateIdent : Type 0 where
  pub series : SeriesRef
  pub season : ℕ
  pub episodes : List ℕ

pub data Numbering : Type 0 where
  tvdb_order tmdb_order absolute scene : Numbering

pub record Candidate (F : Type 0) : Type 0 where
  pub confidence : F
  pub ident : Option CandidateIdent
  pub numbering : Option Numbering

pub data ResultStatus : Type 0 where
  ok abstain failed : ResultStatus

pub record PluginResult (F : Type 0) : Type 0 where
  pub status : ResultStatus
  pub has_reason : Bool
  pub candidates : List (Candidate F)

abbrev pub is_none {ℓ} : {A : Type ℓ} → Option A → Bool
is_none none = true
is_none (some _) = false

-- `ExternalIds._at_least_one`
abbrev pub at_least_one : ExternalIds → Bool
at_least_one ids = not (is_none ids.tvdb && is_none ids.tmdb && is_none ids.imdb)

-- `Candidate._numbering_ident_coupling`
abbrev pub coupled : {F : Type 0} → Candidate F → Bool
coupled c = elim c.ident [ none ↦ is_none c.numbering | some _ ↦ not (is_none c.numbering) ]

abbrev pub names_claimed : Option CandidateIdent → Bool
names_claimed none = false
names_claimed (some i) = elim i.series [ claimed_series ↦ true | external _ ↦ false ]

-- `PluginResult._validate`
unfoldable pub valid_result : {F : Type 0} → PluginResult F → Bool
valid_result r = elim r.status [
  | ok ↦ any (λ c. names_claimed c.ident) r.candidates
  | abstain ↦ r.has_reason
  | failed ↦ r.has_reason
]
