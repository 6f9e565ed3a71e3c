-- ===== src/Discovery/Again.antt =====
-- `poll_once` of src/impostarr/discovery.py: a batch that is polled again adds nothing.
use impostarr.Prelude.{
  ℕ, ◌≡◌, refl, sym, subst, ap, ◌∙◌, ◌⊎◌, inl, inr, Bool, true, false, Bool-cases, Option, none,
  some, List, [], ◌∷◌, any-append, arith,
}
use impostarr.Discovery.{
  Parts, InstanceConfig, Tables, Presence, present, absent, unreadable, Files, is_file, file_exists,
  Captured, captured, skipped, raised, Import, hashed, resolved, probed, located, capture_file,
  map_local_path, watch_dirs_allowed,
}
use impostarr.Discovery.History.{
  HistoryRecord, FileAnswer, got, gone, file_error, Sonarr, Progress, after_capture, import_of,
  answered, poll_file, poll_record, poll_records, poll_once, and_then,
}
use impostarr.Discovery.Poll.{and_then-some, Advances, poll_record-Advances, Adds, capture-Adds}

module _ (cfg : InstanceConfig) (disk : Files) (sonarr : Sonarr) (now instance_id : ℕ) where
  -- A file that was not taken for what the disk says of it would not be taken now either.
  hashed_again :
      (i : Import) (t t' : Tables) (path : Parts) (ids : List ℕ) (h : Option ℕ) (e : Bool)
      → hashed t now instance_id i path ids h ≡ skipped e
      → hashed t' now instance_id i path ids h ≡ skipped e
  hashed_again i t t' path ids none e k = k
  hashed_again i t t' path ids (some hash) e k = ground arith

  resolved_again :
      (i : Import) (t t' : Tables) (path : Parts) (ids : Option (List ℕ)) (e : Bool)
      → resolved disk t now instance_id i path ids ≡ skipped e
      → resolved disk t' now instance_id i path ids ≡ skipped e
  resolved_again i t t' path none e k = ground arith
  resolved_again i t t' path (some ids) e k = hashed_again i t t' path ids (disk.hash_file path) e k

  probed_again :
      (i : Import) (t t' : Tables) (path : Parts) (p : Presence) (e : Bool)
      → probed disk t now instance_id i path p ≡ skipped e
      → probed disk t' now instance_id i path p ≡ skipped e
  probed_again i t t' path unreadable e k = k
  probed_again i t t' path absent e k = k
  probed_again i t t' path present e k = resolved_again i t t' path i.episode_ids e k

  -- A file that was not taken for what the disk says of it would not be taken later either.
  located_again :
      (i : Import) (t t' : Tables) (o : Option Parts) (e : Bool)
      → located cfg disk t now instance_id i o ≡ skipped e
      → located cfg disk t' now instance_id i o ≡ skipped e
  located_again i t t' none e k = k
  located_again i t t' (some path) e k =
      elim (Bool-cases (watch_dirs_allowed cfg.watch_dirs path)) [
        | inl w ↦ rw (w) (probed_again i t t' path (disk.exists path) e (rw (w) at k))
        | inr w ↦ rw (w) (rw (w) at k)
      ]

  -- Every episode file that the first tables know, the second ones know.
  abbrev Knows : Tables → Tables → Type 0
  Knows t t' =
      (id : ℕ) → (file_exists t instance_id id ≡ false) ⊎ (file_exists t' instance_id id ≡ true)

  Adds-knows :
      (i : Import) (t t' : Tables)
      → Adds now instance_id i t t'
      → file_exists t' instance_id i.file.id ≡ true
  unfolding file_exists
  Adds-knows i t t' a =
      subst (λ z. file_exists z instance_id i.file.id ≡ true) (sym a.1.3)
        (rw (any-append (is_file instance_id i.file.id) t.files (_ ∷ [])) (ground arith))

  advance-Knows : (p q : Progress) → Advances now instance_id p q → Knows p.tables q.tables
  unfolding file_exists
  advance-Knows p q (inl k) id = elim (Bool-cases (file_exists p.tables instance_id id)) [
    | inl x ↦ inr (ap (λ t. file_exists t instance_id id) k.0 ∙ x)
    | inr x ↦ inl x
  ]
  advance-Knows p q (inr k) id = elim (Bool-cases (file_exists p.tables instance_id id)) [
    | inl x ↦ inr (
        subst (λ z. file_exists z instance_id id ≡ true) (sym k.1.1.3)
          (rw (any-append (is_file instance_id id) p.tables.files (_ ∷ [])) (ground arith)))
    | inr x ↦ inl x
  ]

  Knows-trans : (a b c : Tables) → Knows a b → Knows b c → Knows a c
  Knows-trans a b c f g id = elim (f id) [
    | inl x ↦ inl x
    | inr x ↦ elim (g id) [ inl y ↦ ground arith | inr y ↦ inr y ]
  ]

  -- What is not known later was not known before.
  unknown :
      (a b : Tables) (id : ℕ)
      → Knows a b
      → file_exists b instance_id id ≡ false
      → file_exists a instance_id id ≡ false
  unknown a b id f n = elim (f id) [ inl x ↦ x | inr x ↦ ground arith ]

  -- The step goes on with the same tables and the same count.
  abbrev Idles : Progress → Option Progress → Type 0
  Idles p o = (q : Progress) × (o ≡ some q) × (q.tables ≡ p.tables) × (q.created ≡ p.created)

  skip-Idles :
      (p : Progress) (c : Captured) (e : Bool) → c ≡ skipped e → Idles p (after_capture p c)
  skip-Idles p c e h = subst (λ z. Idles p (after_capture p z)) (sym h) (_, refl, refl, refl)

  known-Idles :
      (i : Import) (p : Progress)
      → file_exists p.tables instance_id i.file.id ≡ true
      → Idles p (after_capture p (capture_file cfg disk p.tables now instance_id i))
  unfolding capture_file
  known-Idles i p x = skip-Idles p _ false (rw (x) refl)

  capture_again :
      (i : Import) (p q p' : Progress) (c : Captured)
      → capture_file cfg disk p.tables now instance_id i ≡ c
      → after_capture p c ≡ some q
      → Knows q.tables p'.tables
      → Idles p' (after_capture p' (capture_file cfg disk p'.tables now instance_id i))
  unfolding capture_file
  capture_again i p q p' (captured t) e h k =
      let same : t ≡ q.tables = ground arith in
      let known : file_exists t instance_id i.file.id ≡ true =
        Adds-knows i p.tables t (capture-Adds cfg disk now instance_id i p.tables t e) in
      known-Idles i p' (elim (k i.file.id) [
        | inl n ↦
            let at_end : file_exists q.tables instance_id i.file.id ≡ true =
              ap (λ z. file_exists z instance_id i.file.id) (sym same) ∙ known in
            ground arith
        | inr y ↦ y
      ])
  capture_again i p q p' (skipped errored) e h k =
      let same : p.tables ≡ q.tables = ground arith in
      elim (Bool-cases (file_exists p'.tables instance_id i.file.id)) [
        | inl x ↦ known-Idles i p' x
        | inr x ↦
            let before : file_exists p.tables instance_id i.file.id ≡ false =
              unknown p.tables p'.tables i.file.id (subst (λ z. Knows z p'.tables) (sym same) k)
                x in
            skip-Idles p' _ errored (
              rw (x) (
                located_again i p.tables p'.tables (map_local_path cfg.path_mappings i.file.path)
                  errored (rw (before) at e)))
      ]
  capture_again i p q p' raised e h k = ground arith

  answered_again :
      (r : HistoryRecord) (id : ℕ) (p q p' : Progress) (a : FileAnswer)
      → answered cfg disk sonarr now instance_id r id p a ≡ some q
      → Knows q.tables p'.tables
      → Idles p' (answered cfg disk sonarr now instance_id r id p' a)
  answered_again r id p q p' (got f) h k = capture_again (import_of sonarr r id f) p q p' _ refl h k
  answered_again r id p q p' gone h k = (p', refl, refl, refl)
  answered_again r id p q p' file_error h k = ground arith

  poll_file_again :
      (r : HistoryRecord) (p q p' : Progress) (id : Option ℕ)
      → poll_file cfg disk sonarr now instance_id r p id ≡ some q
      → Knows p.tables q.tables
      → Knows q.tables p'.tables
      → Idles p' (poll_file cfg disk sonarr now instance_id r p' id)
  poll_file_again r p q p' none h g k = (p', refl, refl, refl)
  poll_file_again r p q p' (some id) h g k =
      elim (Bool-cases (file_exists p'.tables instance_id id)) [
        | inl x ↦ rw (x) (p', refl, refl, refl)
        | inr x ↦
            let before : file_exists p.tables instance_id id ≡ false =
              unknown p.tables p'.tables id (Knows-trans p.tables q.tables p'.tables g k) x in
            rw (x) (answered_again r id p q p' (sonarr.episode_file id) (rw (before) at h) k)
      ]

  poll_record_again :
      (r : HistoryRecord) (p q p' : Progress)
      → poll_record cfg disk sonarr now instance_id r p ≡ some q
      → Knows q.tables p'.tables
      → Idles p' (poll_record cfg disk sonarr now instance_id r p')
  unfolding poll_record
  poll_record_again r p q p' h k =
      poll_file_again r (record p { last_id = r.id }) q (record p' { last_id = r.id })
        r.episode_file_id h
        (advance-Knows p q (poll_record-Advances cfg disk sonarr now instance_id r p q h)) k

  poll_records-Knows :
      (rs : List HistoryRecord) (p q : Progress)
      → poll_records cfg disk sonarr now instance_id rs p ≡ some q
      → Knows p.tables q.tables
  unfolding poll_records
  poll_records-Knows [] p q h =
      let same : p ≡ q = ground arith in
      subst (λ z. Knows p.tables z.tables) same
        (λ id. elim (Bool-cases (file_exists p.tables instance_id id)) [
          | inl x ↦ inr x
          | inr x ↦ inl x
        ])
  poll_records-Knows (r ∷ rs) p q h =
      let k = and_then-some (poll_record cfg disk sonarr now instance_id r p) _ q h in
      Knows-trans p.tables k.0.tables q.tables
        (advance-Knows p k.0 (poll_record-Advances cfg disk sonarr now instance_id r p k.0 k.1))
        (poll_records-Knows rs k.0 q k.2)

  and_then-Idles :
      (p : Progress) (o : Option Progress) (f : Progress → Option Progress)
      → Idles p o
      → ((q : Progress) → q.tables ≡ p.tables → Idles q (f q))
      → Idles p (and_then o f)
  and_then-Idles p o f a h =
      let b = h a.0 a.2 in
      subst (λ z. Idles p (and_then z f)) (sym a.1) (b.0, b.1, b.2 ∙ a.2, b.3 ∙ a.3)

  poll_records_again :
      (rs : List HistoryRecord) (p q p' : Progress)
      → poll_records cfg disk sonarr now instance_id rs p ≡ some q
      → Knows q.tables p'.tables
      → Idles p' (poll_records cfg disk sonarr now instance_id rs p')
  unfolding poll_records
  poll_records_again [] p q p' h k = (p', refl, refl, refl)
  poll_records_again (r ∷ rs) p q p' h k =
      let s = and_then-some (poll_record cfg disk sonarr now instance_id r p) _ q h in
      let later : Knows s.0.tables p'.tables =
        Knows-trans s.0.tables q.tables p'.tables (poll_records-Knows rs s.0 q s.2) k in
      and_then-Idles p' _ _ (poll_record_again r p s.0 p' s.1 later)
        (λ q' e. poll_records_again rs s.0 q q' s.2 (subst (λ z. Knows q.tables z) (sym e) k))

  -- When a poll has committed its batch, and its records come again, with the same answers of Sonarr
  -- and of the disk, the second poll does not raise, creates nothing and leaves the tables as they are.
  pub poll_once-again :
      (rs : List HistoryRecord) (watermark watermark' : ℕ) (t : Tables) (p : Progress)
      → poll_once cfg disk sonarr now instance_id rs watermark t ≡ some p
      → (q : Progress) × (poll_once cfg disk sonarr now instance_id rs watermark' p.tables ≡ some q)
        × (q.tables ≡ p.tables)
        × (q.created ≡ 0)
  unfolding poll_once
  poll_once-again rs watermark watermark' t p h =
      poll_records_again rs _ p
        (record { tables = p.tables; created = 0; skips = 0; last_id = watermark' }) h
        (λ id. elim (Bool-cases (file_exists p.tables instance_id id)) [
          | inl x ↦ inr x
          | inr x ↦ inl x
        ])
