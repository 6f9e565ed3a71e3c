-- ===== src/Api/Fence.antt =====
-- `post_verdict` of src/impostarr/api/routes.py: the fence before the verdict is written.
use impostarr.Prelude.{
  ℕ, ◌<◌, ◌≡◌, refl, ◌∙◌, subst, ◌⊎◌, inl, inr, Bool, true, false, Bool-cases, Option, none, some,
  List, [], ◌∷◌, ◌++◌, arith, any, count,
}
use impostarr.Jobs.Rows.{Status, matched, Row, is}
use impostarr.Jobs.{ok, invalid_transition, set_status_checked, update, has_status, set_status}
use impostarr.Jobs.Calls.{review_statuses}
use impostarr.Remediate.{MediaFile}
use impostarr.Remediate.Remap.{TargetEpisode}
use impostarr.Api.{
  HumanIdent, HashRow, Tables, Reply, result, bad_request, not_found, conflict, server_error,
  job_in, with_job,
}
use impostarr.Api.Review.{
  Judgement, is_claimed, is_other, ignore, VerdictRequest, VerdictReply, Outside, Resolved, failed,
  resolved, target_status, human_verdict, add_verdict, after_claimed, write_claimed, after_other,
  after_verdict, after_fence, verdict_on, lacks_ident, post_verdict, latest_frame_hash,
  resolve_human_ident_ids, write_phash_corpus_for_verdict,
}

-- The jobs and the verdicts stay; the one event of a reply is the status that it names.
abbrev Replies : ℕ → Status → Tables → Tables × Reply VerdictReply → Type 0
Replies job_id s t (t', result r) =
    (t'.jobs ≡ t.jobs)
    × (t'.verdicts ≡ t.verdicts)
    × (r.job_status ≡ s)
    × (t'.events ≡ t.events ++ (job_id, s) ∷ [])
Replies job_id s t (t', server_error) =
    (t'.jobs ≡ t.jobs) × (t'.verdicts ≡ t.verdicts) × (t'.events ≡ t.events)
Replies job_id s t (t', _) = ⊥

write_claimed-Replies :
    (file : MediaFile) (job_id : ℕ) (s : Status) (hash : HashRow) (t : Tables) (b : Bool)
    (eps : Option (List TargetEpisode))
    → Replies job_id s t (write_claimed file job_id s hash t b eps)
unfolding write_claimed write_phash_corpus_for_verdict
write_claimed-Replies file job_id s hash t true (some eps) = (refl, refl, refl, refl)
write_claimed-Replies file job_id s hash t true none = (refl, refl, refl)
write_claimed-Replies file job_id s hash t false (some eps) = (refl, refl, refl)
write_claimed-Replies file job_id s hash t false none = (refl, refl, refl)

after_claimed-Replies :
    (o : Outside) (file : MediaFile) (job_id : ℕ) (s : Status) (hash : Option HashRow) (t : Tables)
    → Replies job_id s t (after_claimed o file job_id s hash t)
unfolding after_claimed
after_claimed-Replies o file job_id s none t = (refl, refl, refl, refl)
after_claimed-Replies o file job_id s (some hash) t =
    write_claimed-Replies file job_id s hash t o.has_runtime o.episodes

after_other-Replies :
    (job_id : ℕ) (s : Status) (t : Tables) (r : Resolved)
    → Replies job_id s t (after_other job_id s t r)
after_other-Replies job_id s t failed = (refl, refl, refl)
after_other-Replies job_id s t (resolved ids) = (refl, refl, refl, refl)

after_verdict-Replies :
    (o : Outside) (file : MediaFile) (job_id : ℕ) (s : Status) (t : Tables) (v : Judgement)
    (ident : Option HumanIdent)
    → Replies job_id s t (after_verdict o file job_id s t v ident)
unfolding after_verdict
after_verdict-Replies o file job_id s t is_claimed ident =
    after_claimed-Replies o file job_id s (latest_frame_hash t.hashes file.id) t
after_verdict-Replies o file job_id s t is_other (some ident) =
    after_other-Replies job_id s t (resolve_human_ident_ids o ident)
after_verdict-Replies o file job_id s t is_other none = (refl, refl, refl)
after_verdict-Replies o file job_id s t ignore ident = (refl, refl, refl, refl)

module _ (job_id : ℕ) (body : VerdictRequest) (t t1 : Tables) where
  -- The job was in review when it was read and still is in `t1`, where the verdict moves its rows
  -- and is stored.
  abbrev pub Moves : Tables → Type 0
  Moves t' =
      (job : Row) × (job_in t.jobs job_id ≡ some job)
      × (any (is job.status) review_statuses ≡ true)
      × (0 < count (has_status job job.status) t1.jobs)
      × (t'.jobs
          ≡ update (has_status job job.status) (set_status (target_status body.verdict)) t1.jobs)
      × (t'.verdicts ≡ t1.verdicts ++ human_verdict job_id body ∷ [])

  -- What a verdict leaves, by the reply to it. `t1` is what the other sessions have left.
  abbrev pub IsFenced : Tables × Reply VerdictReply → Type 0
  IsFenced (t', not_found) = t' ≡ t
  IsFenced (t', bad_request) = t' ≡ t
  IsFenced (t', conflict) = (t' ≡ t) ⊎ (t' ≡ t1)
  IsFenced (t', result r) =
      Moves t'
      × (r.job_status ≡ target_status body.verdict)
      × (t'.events ≡ t1.events ++ (job_id, target_status body.verdict) ∷ [])
  IsFenced (t', server_error) = Moves t' × (t'.events ≡ t1.events)

  moved :
      (job : Row) (x : Tables × Reply VerdictReply) (rows : List Row)
      → job_in t.jobs job_id ≡ some job
      → any (is job.status) review_statuses ≡ true
      → 0 < count (has_status job job.status) t1.jobs
      → rows ≡ update (has_status job job.status) (set_status (target_status body.verdict)) t1.jobs
      → Replies job_id
          (target_status body.verdict)
          (add_verdict job_id body (record t1 { jobs = rows }))
          x
      → IsFenced x
  moved job (t', result r) rows found review hit e h =
      ((job, found, review, hit, h.0 ∙ e, h.1), h.2, h.3)
  moved job (t', server_error) rows found review hit e h =
      ((job, found, review, hit, h.0 ∙ e, h.1), h.2)
  moved job (t', not_found) rows found review hit e h = absurd h
  moved job (t', bad_request) rows found review hit e h = absurd h
  moved job (t', conflict) rows found review hit e h = absurd h

set_status_checked_cases :
    (rows : List Row) (job : Row) (new : Status)
    → (set_status_checked rows job new job.status ≡ invalid_transition)
      ⊎ ((0 < count (has_status job job.status) rows)
          × (set_status_checked rows job new job.status
              ≡ ok (update (has_status job job.status) (set_status new) rows, set_status new job)))
unfolding set_status_checked
set_status_checked_cases rows job new = ground arith

module _ (o : Outside) (file : MediaFile) (job_id : ℕ) (body : VerdictRequest) (t : Tables) where
  fence-IsFenced :
      (job : Row)
      → job_in t.jobs job_id ≡ some job
      → any (is job.status) review_statuses ≡ true
      → IsFenced job_id body t (o.race t) (
          after_fence o file job_id body
            (o.race t)
            (set_status_checked (o.race t).jobs job (target_status body.verdict) job.status))
  unfolding after_fence
  fence-IsFenced job found review =
      let new = target_status body.verdict in
      let rows = update (has_status job job.status) (set_status new) (o.race t).jobs in
      let stored = add_verdict job_id body (record (o.race t) { jobs = rows }) in
      elim (set_status_checked_cases (o.race t).jobs job new) [
        | inl e ↦ rw e (inr refl)
        | inr h ↦ rw (h.1) (
            moved job_id body t (o.race t) job
              (after_verdict o file job_id new stored body.verdict body.ident) rows found review h.0
              refl (after_verdict-Replies o file job_id new stored body.verdict body.ident))
      ]

  verdict_on-IsFenced :
      (job : Row)
      → job_in t.jobs job_id ≡ some job
      → IsFenced job_id body t (o.race t) (verdict_on o file job_id body t job)
  unfolding verdict_on
  verdict_on-IsFenced job found = elim (Bool-cases (any (is job.status) review_statuses)) [
    | inl review ↦ elim (Bool-cases (lacks_ident body.verdict body.ident)) [
      | inl lacks ↦ rw (review, lacks) refl
      | inr fine ↦ rw (review, fine) (fence-IsFenced job found review)
    ]
    | inr away ↦ rw away (inl refl)
  ]

  with_job-IsFenced :
      (found : Option Row)
      → job_in t.jobs job_id ≡ found
      → IsFenced job_id body t (o.race t) (with_job t found (verdict_on o file job_id body t))
  with_job-IsFenced none e = refl
  with_job-IsFenced (some job) e = verdict_on-IsFenced job e

  -- A verdict that is refused with 400, 404 or 409 leaves the tables as they were, or as other
  -- sessions have left them meanwhile. Any other has found the job in review when it read it and
  -- when it moved it; it moves the job's rows to the status of the verdict and stores one verdict,
  -- also when it ends with 500. It publishes that status if and only if it replies with it.
  pub post_verdict-IsFenced : IsFenced job_id body t (o.race t) (post_verdict o file job_id body t)
  unfolding post_verdict
  post_verdict-IsFenced = with_job-IsFenced (job_in t.jobs job_id) refl

unmoved :
    (job : Row) (rows : List Row)
    → any (is job.status) review_statuses ≡ true
    → count
        (has_status job job.status)
        (update (has_status job job.status) (set_status matched) rows)
      ≡ 0
unfolding update
unmoved job [] review = refl
unmoved job (r ∷ rs) review = ground (arith, unmoved job rs review)

lost :
    (rows : List Row) (job : Row) (new : Status)
    → count (has_status job job.status) rows ≡ 0
    → set_status_checked rows job new job.status ≡ invalid_transition
unfolding set_status_checked
lost rows job new h = ground arith

-- While a verdict on a job is under way, another one says that the file is what it claims to be,
-- and is answered with a result. Then the first one, if it does not lack its ident, is answered
-- with 409, and leaves all as the other has left it.
pub post_verdict-race :
    (o rival : Outside) (file : MediaFile) (job_id : ℕ) (body : VerdictRequest)
    (ident : Option HumanIdent) (t w : Tables) (r : VerdictReply)
    → post_verdict rival file job_id (record { verdict = is_claimed; ident = ident }) t
      ≡ (w, result r)
    → o.race t ≡ w
    → lacks_ident body.verdict body.ident ≡ false
    → post_verdict o file job_id body t ≡ (w, conflict)
unfolding post_verdict verdict_on after_fence
post_verdict-race o rival file job_id body ident t w r won left fine =
    let claimed : VerdictRequest = record { verdict = is_claimed; ident = ident } in
    let (job, found, review, hit, rows, verdicts) =
      (subst (IsFenced job_id claimed t (rival.race t)) won
        (post_verdict-IsFenced rival file job_id claimed t)).0 in
    rw (found, review, fine, left)
      (rw
        (lost w.jobs job (target_status body.verdict)
          (rw rows (unmoved job (rival.race t).jobs review)))
        refl)
