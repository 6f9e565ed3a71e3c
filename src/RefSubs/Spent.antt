-- ===== src/RefSubs/Spent.antt =====
-- src/impostarr/refsubs.py: what one request and one release do to the count of the daily quota.
use impostarr.Prelude.{
  ℕ, ◌≤◌, ◌<◌, ◌+◌, ◌-◌, true, false, Option, none, some, List, [], ◌∷◌, ◌++◌, ◌≡◌, refl, ◌∙◌, ap,
  leb, ==_iff, Bool-cases, inl, inr, All, arith,
}
use impostarr.RefSubs.{
  SubPath, QuotaData, Reply, http_error, response, Request, Service, Outcome, gives, raises,
  fresh_quota, load_quota, release_quota,
}
use impostarr.RefSubs.Client.{send, take_reply}
use impostarr.RefSubs.Fetch.{read_link, keep_file}

module _ (d limit : ℕ) where
  -- It is the day `d`, and every answer comes on that day.
  abbrev pub IsOnDay : Service → Type 0
  IsOnDay s = (s.today ≡ d) × All (λ r. r.0 ≡ d) s.replies

  abbrev pub count_of : Option QuotaData → ℕ
  count_of q = (fresh_quota d q).count

  -- What was used of the quota on the day.
  abbrev pub used : Service → ℕ
  used s = count_of s.quota

  -- As many were used as links were given, and no more than the limit.
  pub record IsAccounted (before : Service) (s : Service) : Type 0 where
    pub on_day : IsOnDay s
    pub balance : used s + before.links ≡ used before + s.links
    pub within : used s ≤ limit

  -- With a reservation that no link stands for yet.
  pub record IsReserved (before : Service) (s : Service) : Type 0 where
    pub on_day : IsOnDay s
    pub reserved : s.quota ≡ some (record { date = d; count = used before + 1 })
    pub no_link : s.links ≡ before.links

  pub take-IsOnDay :
      (s : Service) (rs : List (ℕ × Reply))
      → s.today ≡ d
      → All (λ r. r.0 ≡ d) rs
      → (s.replies ≡ rs)
      → IsOnDay (take_reply s rs).0
  take-IsOnDay s [] t a e = (t, rw e tt)
  take-IsOnDay s (r ∷ rs) t a e = (a.0, a.1)

  pub same_quota : (s : Service) (rs : List (ℕ × Reply)) → (take_reply s rs).0.quota ≡ s.quota
  same_quota s [] = refl
  same_quota s (r ∷ rs) = refl

  pub same_links : (s : Service) (rs : List (ℕ × Reply)) → (take_reply s rs).0.links ≡ s.links
  same_links s [] = refl
  same_links s (r ∷ rs) = refl

  pub send-IsReserved :
      (before : Service) (q : Request) (s : Service)
      → IsReserved before s
      → IsReserved before (send q s).0
  unfolding send
  send-IsReserved before q s i =
      let s' : Service = record s { sent = s.sent ++ q ∷ [] } in
      record {
        on_day = take-IsOnDay s' s.replies i.on_day.0 i.on_day.1 refl;
        reserved = same_quota s' s.replies ∙ i.reserved;
        no_link = same_links s' s.replies ∙ i.no_link;
      }

  pub send-IsAccounted :
      (before : Service) (q : Request) (s : Service)
      → IsAccounted before s
      → IsAccounted before (send q s).0
  unfolding send
  send-IsAccounted before q s i =
      let s' : Service = record s { sent = s.sent ++ q ∷ [] } in
      record {
        on_day = take-IsOnDay s' s.replies i.on_day.0 i.on_day.1 refl;
        balance =
            omega
              (arith, ap count_of (same_quota s' s.replies), same_links s' s.replies, i.balance);
        within = omega (arith, ap count_of (same_quota s' s.replies), i.within);
      }

  pub renew-IsReserved :
      (before : Service) (t : Option (List ℕ)) (s : Service)
      → IsReserved before s
      → IsReserved before (record s { token = t })
  renew-IsReserved before t s i = record {
    on_day = i.on_day;
    reserved = i.reserved;
    no_link = i.no_link;
  }

  pub own_day :
      (c : ℕ)
      → fresh_quota d (some (record { date = d; count = c })) ≡ record { date = d; count = c }
  own_day c = rw ((==_iff d d).1 refl) refl

  -- Taking the reservation back.
  pub release-IsAccounted :
      (before s : Service)
      → used before ≤ limit
      → IsReserved before s
      → IsAccounted before (release_quota s)
  unfolding release_quota load_quota
  release-IsAccounted before s w i =
      let there : fresh_quota s.today s.quota ≡ record { date = d; count = used before + 1 } =
        rw (i.on_day.0, i.reserved) (own_day (used before + 1)) in
      let u : used (release_quota s) ≡ used before =
        rw there (ap (λ q. q.count) (own_day (used before + 1 - 1)) ∙ omega arith) in
      record {
        on_day = i.on_day;
        balance = omega (arith, u, i.no_link);
        within = omega (arith, u, w);
      }

  -- A link makes up for the reservation.
  pub link-IsAccounted :
      (before s : Service)
      → used before < limit
      → IsReserved before s
      → IsAccounted before (record s { links = s.links + 1 })
  link-IsAccounted before s w i =
      let u : used s ≡ used before + 1 =
        ap count_of i.reserved ∙ ap (λ q. q.count) (own_day (used before + 1)) in
      record {
        on_day = i.on_day;
        balance = omega (arith, u, i.no_link);
        within = omega (arith, u, w);
      }

  -- A download with a link is accounted for; any other leaves the reservation.
  unfoldable pub Linked : Service → Service × Outcome (Option (List ℕ)) → Type 0
  Linked before (s, gives (some link)) = IsAccounted before s
  Linked before (s, _) = IsReserved before s

  pub read_link-Linked :
      (before : Service) (x : Service × Outcome (Option Reply))
      → used before < limit
      → IsReserved before x.0
      → Linked before (read_link x)
  unfolding Linked
  read_link-Linked before (s, raises) w i = i
  read_link-Linked before (s, gives none) w i = i
  read_link-Linked before (s, gives (some http_error)) w i = i
  read_link-Linked before (s, gives (some (response status false t items link))) w i = i
  read_link-Linked before (s, gives (some (response status true t items none))) w i = i
  read_link-Linked before (s, gives (some (response status true t items (some [])))) w i = i
  read_link-Linked before (s, gives (some (response status true t items (some (c ∷ cs))))) w i =
      link-IsAccounted before s w i

  pub keep_file-IsAccounted :
      (before : Service) (path : SubPath) (x : Service × Reply)
      → IsAccounted before x.0
      → IsAccounted before (keep_file path x).0
  keep_file-IsAccounted before path (s, http_error) i = i
  keep_file-IsAccounted before path (s, response status is_json t items link) i =
      elim (Bool-cases (leb 400 status)) [
        | inl e ↦ rw e i
        | inr e ↦ rw e (record { on_day = i.on_day; balance = i.balance; within = i.within })
      ]
