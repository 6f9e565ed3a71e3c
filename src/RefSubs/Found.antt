-- ===== src/RefSubs/Found.antt =====
-- src/impostarr/refsubs.py: what `get` returns is on the disk.
use impostarr.Prelude.{
  ℕ, zero, suc, Bool, true, false, Option, none, some, List, [], ◌∷◌, ◌≡◌, refl, if◌then◌else◌, leb,
  ==_iff, Bool-cases, inl, inr, arith, any-append,
}
use impostarr.Text.{same_codes}
use impostarr.RefSubs.{
  RefSubsConfig, get_link, SeriesExtIds, SubPath, manual, cached, same_path, Reply, http_error,
  response, Service, Outcome, gives, raises, path_exists, manual_name, manual_path, language_order,
  reserve_quota, srt_name,
}
use impostarr.RefSubs.Client.{send}
use impostarr.RefSubs.Fetch.{
  search, download, keep_file, save, after_download, after_search, when_reserved, fetch,
  or_language, cache_path, try_languages, or_manual, get_for, get_by_id, get,
}

same_codes_refl : (t : List ℕ) → same_codes t t ≡ true
unfolding same_codes
same_codes_refl [] = refl
same_codes_refl (c ∷ cs) = ground (arith, same_codes_refl cs)

same_path_refl : (p : SubPath) → same_path p p ≡ true
same_path_refl (manual t n) = rw ((==_iff t t).1 refl, same_codes_refl n) refl
same_path_refl (cached t n) = rw ((==_iff t t).1 refl, same_codes_refl n) refl

-- The path that is given, if any, is a file.
abbrev IsFound : Service × Option SubPath → Type 0
IsFound (s, none) = Unit
IsFound (s, some p) = path_exists s p ≡ true

if_IsFound :
    (b : Bool) (x y : Service × Option SubPath)
    → (b ≡ true → IsFound x)
    → IsFound y
    → IsFound (if b then x else y)
if_IsFound true x y f g = f refl
if_IsFound false x y f g = g

keep_file-IsFound : (p : SubPath) (x : Service × Reply) → IsFound (keep_file p x)
keep_file-IsFound p (s, http_error) = tt
keep_file-IsFound p (s, response status is_json t items link) = elim (Bool-cases (leb 400 status)) [
  | inl e ↦ rw e tt
  | inr e ↦ rw e (ground (arith, any-append (same_path p) s.files (p ∷ []), same_path_refl p))
]

after_download-IsFound :
    (p : SubPath) (x : Service × Outcome (Option (List ℕ))) → IsFound (after_download p x)
unfolding after_download save
after_download-IsFound p (s, raises) = tt
after_download-IsFound p (s, gives none) = tt
after_download-IsFound p (s, gives (some link)) = keep_file-IsFound p (send (get_link link) s)

after_search-IsFound : (p : SubPath) (x : Service × Outcome (Option ℕ)) → IsFound (after_search p x)
unfolding after_search
after_search-IsFound p (s, raises) = tt
after_search-IsFound p (s, gives none) = tt
after_search-IsFound p (s, gives (some id)) = after_download-IsFound p (download id s)

when_reserved-IsFound :
    (x : Service × Bool) (next : Service → Service × Option SubPath)
    → ((s : Service) → IsFound (next s))
    → IsFound (when_reserved x next)
when_reserved-IsFound (s, true) next k = k s
when_reserved-IsFound (s, false) next k = tt

or_language-IsFound :
    (x : Service × Option SubPath) (next : Service → Service × Option SubPath)
    → IsFound x
    → ((s : Service) → IsFound (next s))
    → IsFound (or_language x next)
or_language-IsFound (s, some p) next f k = f
or_language-IsFound (s, none) next f k = k s

try_languages-IsFound :
    (cfg : RefSubsConfig) (ids : SeriesExtIds) (tvdb season episode : ℕ) (langs : List (List ℕ))
    (s : Service)
    → IsFound (try_languages cfg ids tvdb season episode langs s)
unfolding try_languages fetch
try_languages-IsFound cfg ids tvdb season episode [] s = tt
try_languages-IsFound cfg ids tvdb season episode (lang ∷ langs) s =
    let path = cache_path tvdb season episode lang in
    or_language-IsFound (if path_exists s path then (s, some path) else fetch cfg ids path s)
      (try_languages cfg ids tvdb season episode langs)
      (if_IsFound (path_exists s path) (s, some path) (fetch cfg ids path s) (λ e. e)
        (when_reserved-IsFound (reserve_quota cfg s) (λ s1. after_search path (search ids s1))
          (λ s1. after_search-IsFound path (search ids s1))))
      (try_languages-IsFound cfg ids tvdb season episode langs)

-- A manual file.
abbrev Exists : Service → Option SubPath → Type 0
Exists s none = Unit
Exists s (some p) = path_exists s p ≡ true

if_Exists :
    (s : Service) (b : Bool) (x y : Option SubPath)
    → (b ≡ true → Exists s x)
    → Exists s y
    → Exists s (if b then x else y)
if_Exists s true x y f g = f refl
if_Exists s false x y f g = g

manual_name-Exists :
    (s : Service) (tvdb season episode : ℕ) (langs : List (List ℕ))
    → Exists s (manual_name s tvdb season episode langs)
unfolding manual_name
manual_name-Exists s tvdb season episode [] =
    if_Exists s (path_exists s (manual tvdb (srt_name season episode []))) (some _) none (λ e. e) tt
manual_name-Exists s tvdb season episode (lang ∷ langs) =
    if_Exists s (path_exists s (manual tvdb (srt_name season episode lang))) (some _)
      (manual_name s tvdb season episode langs) (λ e. e)
      (manual_name-Exists s tvdb season episode langs)

or_manual-IsFound :
    (s : Service) (m : Option SubPath) (x : Service × Option SubPath)
    → Exists s m
    → IsFound x
    → IsFound (or_manual m s x)
or_manual-IsFound s (some p) x e f = e
or_manual-IsFound s none x e f = f

get_by_id-IsFound :
    (cfg : RefSubsConfig) (ids : SeriesExtIds) (tvdb : Option ℕ) (season episode : ℕ)
    (langs : List (List ℕ)) (s : Service)
    → IsFound (get_by_id cfg ids tvdb season episode langs s)
unfolding get_by_id get_for manual_path
get_by_id-IsFound cfg ids none season episode langs s = tt
get_by_id-IsFound cfg ids (some zero) season episode langs s = tt
get_by_id-IsFound cfg ids (some (suc n)) season episode langs s =
    or_manual-IsFound s _ _
      (if_Exists s cfg.has_manual_dir (manual_name s (suc n) season episode langs) none
        (λ _. manual_name-Exists s (suc n) season episode langs) tt)
      (if_IsFound cfg.has_cache_dir (try_languages cfg ids (suc n) season episode langs s) (s, none)
        (λ _. try_languages-IsFound cfg ids (suc n) season episode langs s) tt)

found_path :
    (x : Service × Option SubPath) (p : SubPath)
    → IsFound x
    → x.1 ≡ some p
    → path_exists x.0 p ≡ true
found_path (s, none) p f e = absurd cc
found_path (s, some q) p f e = let same : q ≡ p = cc in rw (← same) f

-- A path that `get` returns is a file when it returns.
pub get-exists :
    (cfg : RefSubsConfig) (ids : SeriesExtIds) (season episode : ℕ) (language : Option (List ℕ))
    (s : Service) (p : SubPath)
    → (get cfg ids season episode language s).1 ≡ some p
    → path_exists (get cfg ids season episode language s).0 p ≡ true
unfolding get
get-exists cfg ids season episode language s p e =
    found_path (get_by_id cfg ids ids.tvdb season episode (language_order cfg language) s) p
      (get_by_id-IsFound cfg ids ids.tvdb season episode (language_order cfg language) s) e
