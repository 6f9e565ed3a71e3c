-- ===== src/Remediate/Stages.antt =====
-- src/impostarr/remediate.py: `replace`, and `remap` after its checks, from what their stages do.
use impostarr.Prelude.{ℕ, String, List, Option, some, none, ◌≡◌, refl}
use impostarr.IdSet.{IdSet, of_list}
use impostarr.Jobs.Rows.{Row, remediated}
use impostarr.Remediate.{
  Run, MediaFile, Settings, Flow, Ending, released, refused, lost, raised, ◌>>=◌, finish, guard,
}
use impostarr.Remediate.Replace.{
  ReplaceAnswers, blocklist, keep_copy, delete, search_again, replace,
}
use impostarr.Remediate.Remap.{
  RemapAnswers, TargetEpisode, fetched, fetch_sonarr_error, fetch_other_error, Fetched, ids_of,
  target_episodes, check_targets, stage, delete_record, import_staged, transfer, staged_name,
  remap_onto, remap_fetched, remap,
}
use impostarr.Remediate.Leads.{Leads, Never, Leads-bind, finish-Leads}

-- What a last stage has to show: the run is handed on as it is, but for the rows.
abbrev pub IsFinal : (Run → Type 0) → (Run → Ending → Type 0) → Type 0
IsFinal K H =
    (r : Run)
    → K r
    → ((rows : List Row) → H (record r { rows = rows }) (released remediated))
      × (H r refused × H r lost)

module _ (s : Settings) (job : Row) (worker : String) (H : Run → Ending → Type 0) where
  finish_last :
      (K : Run → Type 0)
      → IsFinal K H
      → (r : Run) → K r
      → Leads Never H (finish job worker remediated r)
  finish_last K last r k =
      finish-Leads Never H job worker remediated r (last r k).0 (last r k).1.0 (last r k).1.1

  module _ (file : MediaFile) (a : ReplaceAnswers) where
    abbrev searching : Run → Flow
    searching r = search_again s job worker file a r >>= finish job worker remediated

    abbrev deleting : Run → Flow
    deleting r = delete s job worker file a r >>= searching

    abbrev keeping : Run → Flow
    keeping r = keep_copy s job worker file a r >>= deleting

    abbrev blocklisting : Run → Flow
    blocklisting r = blocklist s job worker file a file.history_id r >>= keeping

    pub replace-finish-Leads :
        (r : Run) (K0 K1 K2 K3 K4 : Run → Type 0)
        → Leads K0 H (guard s job worker r)
        → ((q : Run) → K0 q → Leads K1 H (blocklist s job worker file a file.history_id q))
        → ((q : Run) → K1 q → Leads K2 H (keep_copy s job worker file a q))
        → ((q : Run) → K2 q → Leads K3 H (delete s job worker file a q))
        → ((q : Run) → K3 q → Leads K4 H (search_again s job worker file a q))
        → ((q : Run) → K4 q → Leads Never H (finish job worker remediated q))
        → Leads Never H (replace s job worker file a r)
    unfolding replace
    replace-finish-Leads r K0 K1 K2 K3 K4 h0 h1 h2 h3 h4 last =
        Leads-bind Never H K0 (guard s job worker r) blocklisting h0 (λ q0 k0.
          Leads-bind Never H K1 (blocklist s job worker file a file.history_id q0) keeping
            (h1 q0 k0)
            (λ q1 k1.
              Leads-bind Never H K2 (keep_copy s job worker file a q1) deleting (h2 q1 k1) (λ q2 k2.
                Leads-bind Never H K3 (delete s job worker file a q2) searching (h3 q2 k2) (λ q3 k3.
                  Leads-bind Never H K4 (search_again s job worker file a q3)
                    (finish job worker remediated) (h4 q3 k3) last))))

    pub replace-Leads :
        (r : Run) (K0 K1 K2 K3 K4 : Run → Type 0)
        → Leads K0 H (guard s job worker r)
        → ((q : Run) → K0 q → Leads K1 H (blocklist s job worker file a file.history_id q))
        → ((q : Run) → K1 q → Leads K2 H (keep_copy s job worker file a q))
        → ((q : Run) → K2 q → Leads K3 H (delete s job worker file a q))
        → ((q : Run) → K3 q → Leads K4 H (search_again s job worker file a q))
        → IsFinal K4 H
        → Leads Never H (replace s job worker file a r)
    replace-Leads r K0 K1 K2 K3 K4 h0 h1 h2 h3 h4 last =
        replace-finish-Leads r K0 K1 K2 K3 K4 h0 h1 h2 h3 h4 (finish_last K4 last)

  module _ (file : MediaFile) (targets : IdSet) (a : RemapAnswers) where
    abbrev importing : List TargetEpisode → List ℕ → Run → Flow
    importing eps name r =
        import_staged s job worker file targets a name (of_list (ids_of eps)) r
        >>= finish job worker remediated

    abbrev deleting_record : List TargetEpisode → List ℕ → Run → Flow
    deleting_record eps name r = delete_record s job worker file targets a r >>= importing eps name

    transfer-Leads :
        (eps : List TargetEpisode) (name : Option (List ℕ)) (r : Run) (K1 K2 K3 : Run → Type 0)
        → (name ≡ none → H r raised)
        → ((n : List ℕ)
            → name ≡ some n
            → Leads K1 H (stage s job worker file targets a n r)
              × (((q : Run) → K1 q → Leads K2 H (delete_record s job worker file targets a q))
                  × ((q : Run)
                      → K2 q
                      → Leads K3 H
                          (import_staged s job worker file targets a n (of_list (ids_of eps)) q))))
        → ((q : Run) → K3 q → Leads Never H (finish job worker remediated q))
        → Leads Never H (transfer s job worker file targets a eps name r)
    unfolding transfer
    transfer-Leads eps none r K1 K2 K3 empty steps last = empty refl
    transfer-Leads eps (some n) r K1 K2 K3 empty steps last =
        let at = steps n refl in
        Leads-bind Never H K1 (stage s job worker file targets a n r) (deleting_record eps n) at.0
          (λ q1 k1.
            Leads-bind Never H K2 (delete_record s job worker file targets a q1) (importing eps n)
              (at.1.0 q1 k1)
              (λ q2 k2.
                Leads-bind Never H K3
                  (import_staged s job worker file targets a n (of_list (ids_of eps)) q2)
                  (finish job worker remediated) (at.1.1 q2 k2) last))

    remap_fetched-Leads :
        (fetch : Fetched TargetEpisode) (r : Run) (K : Run → Type 0)
        → H r raised
        → ((eps : List TargetEpisode)
            → fetch ≡ fetched eps
            → Leads K H (check_targets s job worker file targets a (target_episodes targets eps) r))
        → ((eps : List TargetEpisode) (q : Run)
            → fetch ≡ fetched eps
            → K q
            → Leads Never H (
                transfer s job worker file targets a
                  (target_episodes targets eps)
                  (staged_name (target_episodes targets eps) file.suffix)
                  q))
        → Leads Never H (remap_fetched s job worker file targets a fetch r)
    unfolding remap_fetched remap_onto
    remap_fetched-Leads (fetched eps) r K broken checks moves =
        Leads-bind Never H K
          (check_targets s job worker file targets a (target_episodes targets eps) r)
          (transfer s job worker file targets a (target_episodes targets eps)
            (staged_name (target_episodes targets eps) file.suffix))
          (checks eps refl) (λ q k. moves eps q refl k)
    remap_fetched-Leads fetch_sonarr_error r K broken checks moves = broken
    remap_fetched-Leads fetch_other_error r K broken checks moves = broken

    pub remap-finish-Leads :
        (r : Run) (K0 K1 K2 K3 K4 : Run → Type 0)
        → Leads K0 H (guard s job worker r)
        → ((q : Run) → K0 q → H q raised)
        → ((eps : List TargetEpisode) (q : Run)
            → a.episodes ≡ fetched eps
            → K0 q
            → Leads K1 H
                (check_targets s job worker file targets a (target_episodes targets eps) q))
        → ((q : Run) → K1 q → H q raised)
        → ((eps : List TargetEpisode) (n : List ℕ) (q : Run)
            → a.episodes ≡ fetched eps
            → staged_name (target_episodes targets eps) file.suffix ≡ some n
            → K1 q
            → Leads K2 H (stage s job worker file targets a n q)
              × (((q : Run) → K2 q → Leads K3 H (delete_record s job worker file targets a q))
                  × ((q : Run)
                      → K3 q
                      → Leads K4 H (
                          import_staged s job worker file targets a n
                            (of_list (ids_of (target_episodes targets eps)))
                            q))))
        → ((q : Run) → K4 q → Leads Never H (finish job worker remediated q))
        → Leads Never H (remap s job worker file targets a r)
    unfolding remap
    remap-finish-Leads r K0 K1 K2 K3 K4 h0 e0 h1 e1 h2 last =
        Leads-bind Never H K0 (guard s job worker r)
          (remap_fetched s job worker file targets a a.episodes) h0
          (λ q0 k0.
            remap_fetched-Leads a.episodes q0 K1 (e0 q0 k0) (λ eps e. h1 eps q0 e k0)
              (λ eps q1 e k1.
                transfer-Leads (target_episodes targets eps)
                  (staged_name (target_episodes targets eps) file.suffix) q1 K2 K3 K4
                  (λ _. e1 q1 k1) (λ n en. h2 eps n q1 e en k1) last))

    pub remap-Leads :
        (r : Run) (K0 K1 K2 K3 K4 : Run → Type 0)
        → Leads K0 H (guard s job worker r)
        → ((q : Run) → K0 q → H q raised)
        → ((eps : List TargetEpisode) (q : Run)
            → a.episodes ≡ fetched eps
            → K0 q
            → Leads K1 H
                (check_targets s job worker file targets a (target_episodes targets eps) q))
        → ((q : Run) → K1 q → H q raised)
        → ((eps : List TargetEpisode) (n : List ℕ) (q : Run)
            → a.episodes ≡ fetched eps
            → staged_name (target_episodes targets eps) file.suffix ≡ some n
            → K1 q
            → Leads K2 H (stage s job worker file targets a n q)
              × (((q : Run) → K2 q → Leads K3 H (delete_record s job worker file targets a q))
                  × ((q : Run)
                      → K3 q
                      → Leads K4 H (
                          import_staged s job worker file targets a n
                            (of_list (ids_of (target_episodes targets eps)))
                            q))))
        → IsFinal K4 H
        → Leads Never H (remap s job worker file targets a r)
    remap-Leads r K0 K1 K2 K3 K4 h0 e0 h1 e1 h2 last =
        remap-finish-Leads r K0 K1 K2 K3 K4 h0 e0 h1 e1 h2 (finish_last K4 last)
