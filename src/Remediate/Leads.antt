-- ===== src/Remediate/Leads.antt =====
-- src/impostarr/remediate.py: stages with their conditions. `Leads G H x`: if the stage `x` goes
-- on, its run meets `G`; if it has ended the call, the run and the ending meet `H`.
use impostarr.Prelude.{
  subst, sym, String, Bool, true, false, ◌≡◌, refl, ◌⊎◌, List, [], ◌∷◌, ◌++◌, inl, inr,
  if◌then◌else◌,
}
use impostarr.Jobs.Rows.{Status, quarantine, Row}
use impostarr.Jobs.{Result, ok, invalid_transition, lease_lost, release}
use impostarr.Remediate.{
  StepName, interruption_guard, Run, Settings, Answer, success, sonarr_error, other_error, Request,
  Flow, go, halt, Ending, released, refused, lost, raised, ◌>>=◌, log_step, finish, fail, attempt,
  guard, settled, was_interrupted,
}

abbrev pub Leads : (Run → Type 0) → (Run → Ending → Type 0) → Flow → Type 0
Leads G H (go r) = G r
Leads G H (halt r e) = H r e

-- No run goes on.
abbrev pub Never : Run → Type 0
Never r = ⊥

-- `released remediated`, the one ending that says the job is done.
abbrev pub is_remediated : Ending → Bool
is_remediated (released Status.remediated) = true
is_remediated _ = false

module _ (G : Run → Type 0) (H : Run → Ending → Type 0) where
  pub Leads-bind :
      (K : Run → Type 0) (x : Flow) (f : Run → Flow)
      → Leads K H x
      → ((r : Run) → K r → Leads G H (f r))
      → Leads G H (x >>= f)
  Leads-bind K (go r) f l h = h r l
  Leads-bind K (halt r e) f l h = l

  pub if-Leads :
      (b : Bool) (x y : Flow)
      → (b ≡ true → Leads G H x)
      → (b ≡ false → Leads G H y)
      → Leads G H (if b then x else y)
  if-Leads true x y f g = f refl
  if-Leads false x y f g = g refl

  settled-Leads :
      (r : Run) (new : Status) (res : Result (List Row × Row))
      → ((rows : List Row) → H (record r { rows = rows }) (released new))
      → H r refused
      → H r lost
      → Leads G H (settled r new res)
  unfolding settled
  settled-Leads r new (ok p) a b c = a p.0
  settled-Leads r new invalid_transition a b c = b
  settled-Leads r new lease_lost a b c = c

  pub finish-Leads :
      (job : Row) (worker : String) (new : Status) (r : Run)
      → ((rows : List Row) → H (record r { rows = rows }) (released new))
      → H r refused
      → H r lost
      → Leads G H (finish job worker new r)
  unfolding finish
  finish-Leads job worker new r = settled-Leads r new (release r.rows job new worker)

  -- A release that is accepted.
  pub finish-accepted-Leads :
      (job : Row) (worker : String) (new : Status) (r : Run) (p : List Row × Row)
      → release r.rows job new worker ≡ ok p
      → H (record r { rows = p.0 }) (released new)
      → Leads G H (finish job worker new r)
  unfolding finish settled
  finish-accepted-Leads job worker new r p e h = subst (λ o. Leads G H (settled r new o)) (sym e) h

  -- A failure ends the call, and never with `remediated`.
  pub fail-Leads :
      (s : Settings) (job : Row) (worker : String) (step : StepName) (r : Run)
      → ((rows : List Row) (e : Ending)
          → is_remediated e ≡ false
          → H (record (log_step s step false false r) { rows = rows }) e)
      → Leads G H (fail s job worker step r)
  fail-Leads s job worker step r h =
      finish-Leads job worker quarantine (log_step s step false false r)
        (λ rows. h rows (released quarantine) refl) (h r.rows refused refl) (h r.rows lost refl)

  answer-Leads :
      (s : Settings) (job : Row) (worker : String) (step : StepName) (a : Answer) (r : Run)
      → (a ≡ success → G (log_step s step true false r))
      → (a ≡ sonarr_error
          → (rows : List Row) (e : Ending) → is_remediated e ≡ false
          → H (record (log_step s step false false r) { rows = rows }) e)
      → (a ≡ other_error → H r raised)
      → Leads G H (elim a [
        | success ↦ go (log_step s step true false r)
        | sonarr_error ↦ fail s job worker step r
        | other_error ↦ halt r raised
      ])
  answer-Leads s job worker step success r sent failed broken = sent refl
  answer-Leads s job worker step sonarr_error r sent failed broken =
      fail-Leads s job worker step r (failed refl)
  answer-Leads s job worker step other_error r sent failed broken = broken refl

  pub attempt-Leads :
      (s : Settings) (job : Row) (worker : String) (step : StepName) (q : Request) (a : Answer)
      (r : Run)
      → (s.dry_run ≡ true → G (log_step s step true false r))
      → (s.dry_run ≡ false
          → a ≡ success
          → G (log_step s step true false (record r { requests = r.requests ++ q ∷ [] })))
      → (s.dry_run ≡ false
          → a ≡ sonarr_error
          → (rows : List Row) (e : Ending) → is_remediated e ≡ false
          → H
              (record (log_step s step false false (record r { requests = r.requests ++ q ∷ [] })) {
                rows = rows;
              })
              e)
      → (s.dry_run ≡ false
          → a ≡ other_error
          → H (record r { requests = r.requests ++ q ∷ [] }) raised)
      → Leads G H (attempt s job worker step q a r)
  unfolding attempt
  attempt-Leads s job worker step q a r dry sent failed broken = if-Leads s.dry_run _ _ dry (λ d.
      answer-Leads s job worker step a (record r { requests = r.requests ++ q ∷ [] }) (sent d)
        (failed d) (broken d))

  pub guard-Leads :
      (s : Settings) (job : Row) (worker : String) (r : Run)
      → (was_interrupted r.log ≡ false → G r)
      → (was_interrupted r.log ≡ true
          → (rows : List Row) (e : Ending) → is_remediated e ≡ false
          → H (record (log_step s interruption_guard false false r) { rows = rows }) e)
      → Leads G H (guard s job worker r)
  unfolding guard
  guard-Leads s job worker r fresh stopped =
      if-Leads (was_interrupted r.log) _ _
        (λ i.
          finish-Leads job worker quarantine (log_step s interruption_guard false false r)
            (λ rows. stopped i rows (released quarantine) refl) (stopped i r.rows refused refl)
            (stopped i r.rows lost refl))
        fresh

-- Other conditions on the ending.
pub Leads-weaken :
    (G : Run → Type 0) (H J : Run → Ending → Type 0) (x : Flow)
    → Leads G H x
    → ((q : Run) (e : Ending) → H q e → J q e)
    → Leads G J x
Leads-weaken G H J (go r) l w = l
Leads-weaken G H J (halt r e) l w = w r e l

-- A consequence of what a test says, as two cases.
pub test_or {ℓ} : {P : Type ℓ} (b : Bool) → (b ≡ true → P) → (b ≡ false) ⊎ P
test_or true f = inr (f refl)
test_or false f = inl refl
