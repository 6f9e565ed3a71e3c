-- ===== src/Discovery/Poll.antt =====
-- `_capture_file` and `poll_once` of src/impostarr/discovery.py: what a poll adds.
use impostarr.Prelude.{
  ℕ, suc, ◌+◌, ◌≡◌, refl, sym, subst, ap, ◌∙◌, ◌⊎◌, inl, inr, false, Bool-cases, Option, none, some,
  List, [], ◌∷◌, ◌++◌, any, any-append, arith, length, length-append,
}
use impostarr.Jobs.{create_job}
use impostarr.Discovery.{
  Parts, InstanceConfig, FileRow, Tables, Presence, present, absent, unreadable, Files, is_file,
  file_exists, Captured, captured, skipped, raised, Import, add_rows, hashed, resolved, probed,
  located, capture_file, map_local_path, watch_dirs_allowed,
}
use impostarr.Discovery.History.{
  HistoryRecord, FileAnswer, got, gone, file_error, Sonarr, Progress, after_capture, import_of,
  answered, poll_file, poll_record, poll_records, poll_once, and_then,
}

-- No two rows are the same episode file of the same instance.
abbrev pub IsDistinct : List FileRow → Type 0
IsDistinct [] = Unit
IsDistinct (f ∷ fs) = (any (is_file f.instance_id f.episode_file_id) fs ≡ false) × IsDistinct fs

-- The tables with one file and its job more, of an episode file that was not there.
abbrev pub Adds : ℕ → ℕ → Import → Tables → Tables → Type 0
Adds now instance_id i t t' =
    (file_exists t instance_id i.file.id ≡ false)
    × ((path : Parts) × (hash : ℕ) × (ids : List ℕ) × (t'
          ≡ add_rows t now instance_id i path hash ids))

module _ (cfg : InstanceConfig) (disk : Files) (now instance_id : ℕ) where
  -- The rows that are added by a file that is located.
  abbrev Added : Import → Tables → Tables → Type 0
  Added i t t' =
      (path : Parts) × (hash : ℕ) × (ids : List ℕ) × (t'
        ≡ add_rows t now instance_id i path hash ids)

  hashed-Added :
      (i : Import) (t t' : Tables) (path : Parts) (ids : List ℕ) (h : Option ℕ)
      → hashed t now instance_id i path ids h ≡ captured t'
      → Added i t t'
  hashed-Added i t t' path ids none e = ground arith
  hashed-Added i t t' path ids (some hash) e = (path, hash, ids, ground arith)

  resolved-Added :
      (i : Import) (t t' : Tables) (path : Parts) (ids : Option (List ℕ))
      → resolved disk t now instance_id i path ids ≡ captured t'
      → Added i t t'
  resolved-Added i t t' path none e = ground arith
  resolved-Added i t t' path (some ids) e = hashed-Added i t t' path ids (disk.hash_file path) e

  probed-Added :
      (i : Import) (t t' : Tables) (path : Parts) (p : Presence)
      → probed disk t now instance_id i path p ≡ captured t'
      → Added i t t'
  probed-Added i t t' path unreadable e = ground arith
  probed-Added i t t' path absent e = ground arith
  probed-Added i t t' path present e = resolved-Added i t t' path i.episode_ids e

  located-Added :
      (i : Import) (t t' : Tables) (o : Option Parts)
      → located cfg disk t now instance_id i o ≡ captured t'
      → Added i t t'
  located-Added i t t' none e = ground arith
  located-Added i t t' (some path) e = elim (Bool-cases (watch_dirs_allowed cfg.watch_dirs path)) [
    | inl w ↦ probed-Added i t t' path (disk.exists path) (rw (w) at e)
    | inr w ↦ ground arith
  ]

  pub capture-Adds :
      (i : Import) (t t' : Tables)
      → capture_file cfg disk t now instance_id i ≡ captured t'
      → Adds now instance_id i t t'
  unfolding capture_file
  capture-Adds i t t' e = elim (Bool-cases (file_exists t instance_id i.file.id)) [
    | inl x ↦ ground arith
    | inr x ↦
        (x, located-Added i t t' (map_local_path cfg.path_mappings i.file.path) (ground arith))
  ]

IsDistinct-append :
    (xs : List FileRow) (y : FileRow)
    → IsDistinct xs
    → any (is_file y.instance_id y.episode_file_id) xs ≡ false
    → IsDistinct (xs ++ y ∷ [])
IsDistinct-append [] y d n = (refl, tt)
IsDistinct-append (x ∷ xs) y d n = (
  rw (any-append (is_file x.instance_id x.episode_file_id) xs (y ∷ [])) (ground arith),
  IsDistinct-append xs y d.1 (ground arith),
)

length-snoc {ℓ} : {A : Type ℓ} (xs : List A) (y : A) → length (xs ++ y ∷ []) ≡ suc (length xs)
length-snoc xs y = omega (arith, length-append xs (y ∷ []))

-- What holds of the tables of a batch that began with so many files and jobs.
abbrev Filed : ℕ → ℕ → Progress → Type 0
Filed files jobs p =
    (length p.tables.files ≡ files + p.created)
    × (length p.tables.jobs ≡ jobs + p.created)
    × IsDistinct p.tables.files

Adds-Filed :
    (now instance_id files jobs : ℕ) (i : Import) (p : Progress) (t' : Tables)
    → Adds now instance_id i p.tables t'
    → Filed files jobs p
    → Filed files jobs (record p { tables = t'; created = suc p.created })
unfolding create_job file_exists
Adds-Filed now instance_id files jobs i p t' a f =
    subst (λ t. Filed files jobs (record p { tables = t; created = suc p.created })) (sym a.1.3)
      (
        length-snoc p.tables.files _ ∙ omega (arith, f.0),
        length-snoc p.tables.jobs _ ∙ omega (arith, f.1),
        IsDistinct-append p.tables.files _ f.2 a.0,
      )

pub and_then-some :
    (o : Option Progress) (f : Progress → Option Progress) (q : Progress)
    → and_then o f ≡ some q
    → (p : Progress) × (o ≡ some p) × (f p ≡ some q)
and_then-some none f q h = ground arith
and_then-some (some p) f q h = (p, refl, h)

-- A step of the batch that keeps its tables and its count, or adds one file.
abbrev pub Advances : ℕ → ℕ → Progress → Progress → Type 0
Advances now instance_id p q =
    ((q.tables ≡ p.tables) × (q.created ≡ p.created))
    ⊎ ((i : Import) × Adds now instance_id i p.tables q.tables × (q.created ≡ suc p.created))

module _ (cfg : InstanceConfig) (disk : Files) (sonarr : Sonarr) (now instance_id : ℕ) where
  capture-Advances :
      (i : Import) (p q : Progress) (c : Captured)
      → capture_file cfg disk p.tables now instance_id i ≡ c
      → after_capture p c ≡ some q
      → Advances now instance_id p q
  capture-Advances i p q (captured t) e h =
      let same : record p { tables = t; created = suc p.created } ≡ q = ground arith in
      inr (
        i,
        subst (λ z. Adds now instance_id i p.tables z.tables) same
            (capture-Adds cfg disk now instance_id i p.tables t e),
        ap (λ z. z.created) (sym same),
      )
  capture-Advances i p q (skipped errored) e h = inl (ground arith, ground arith)
  capture-Advances i p q raised e h = ground arith

  answered-Advances :
      (r : HistoryRecord) (id : ℕ) (p q : Progress) (answer : FileAnswer)
      → answered cfg disk sonarr now instance_id r id p answer ≡ some q
      → Advances now instance_id p q
  answered-Advances r id p q (got f) h = capture-Advances (import_of sonarr r id f) p q _ refl h
  answered-Advances r id p q gone h = inl (ground arith, ground arith)
  answered-Advances r id p q file_error h = ground arith

  poll_file-Advances :
      (r : HistoryRecord) (p q : Progress) (id : Option ℕ)
      → poll_file cfg disk sonarr now instance_id r p id ≡ some q
      → Advances now instance_id p q
  poll_file-Advances r p q none h = inl (ground arith, ground arith)
  poll_file-Advances r p q (some id) h = elim (Bool-cases (file_exists p.tables instance_id id)) [
    | inl x ↦ let same : some p ≡ some q = rw (x) at h in inl (ground arith, ground arith)
    | inr x ↦ answered-Advances r id p q (sonarr.episode_file id) (rw (x) at h)
  ]

  pub poll_record-Advances :
      (r : HistoryRecord) (p q : Progress)
      → poll_record cfg disk sonarr now instance_id r p ≡ some q
      → Advances now instance_id p q
  unfolding poll_record
  poll_record-Advances r p q h =
      poll_file-Advances r (record p { last_id = r.id }) q r.episode_file_id h

  advance-Filed :
      (files jobs : ℕ) (p q : Progress)
      → Advances now instance_id p q
      → Filed files jobs p
      → Filed files jobs q
  advance-Filed files jobs p q (inl k) f = (
    ap (λ t. length t.files) k.0 ∙ (f.0 ∙ omega (arith, k.1)),
    ap (λ t. length t.jobs) k.0 ∙ (f.1 ∙ omega (arith, k.1)),
    subst (λ t. IsDistinct t.files) (sym k.0) f.2,
  )
  advance-Filed files jobs p q (inr k) f =
      let g = Adds-Filed now instance_id files jobs k.0 p q.tables k.1 f in
      (g.0 ∙ omega (arith, k.2), g.1 ∙ omega (arith, k.2), g.2)

  poll_records-Filed :
      (files jobs : ℕ) (rs : List HistoryRecord) (p q : Progress)
      → poll_records cfg disk sonarr now instance_id rs p ≡ some q
      → Filed files jobs p
      → Filed files jobs q
  unfolding poll_records
  poll_records-Filed files jobs [] p q h f =
      let same : p ≡ q = ground arith in subst (λ z. Filed files jobs z) same f
  poll_records-Filed files jobs (r ∷ rs) p q h f =
      let k = and_then-some (poll_record cfg disk sonarr now instance_id r p) _ q h in
      poll_records-Filed files jobs rs k.0 q k.2
        (advance-Filed files jobs p k.0 (poll_record-Advances r p k.0 k.1) f)

  -- A poll that does not raise adds as many files and as many jobs as it counts, and no episode file
  -- that is there already, or twice.
  pub poll_once-IsDistinct :
      (rs : List HistoryRecord) (watermark : ℕ) (t : Tables) (p : Progress)
      → IsDistinct t.files
      → poll_once cfg disk sonarr now instance_id rs watermark t ≡ some p
      → (length p.tables.files ≡ length t.files + p.created)
        × (length p.tables.jobs ≡ length t.jobs + p.created)
        × IsDistinct p.tables.files
  unfolding poll_once
  poll_once-IsDistinct rs watermark t p d h =
      poll_records-Filed (length t.files) (length t.jobs) rs _ p h (omega arith, omega arith, d)
