-- ===== src/Jobs/Rows.antt =====
-- The Job table of src/impostarr/models.py: its statuses, its columns and its order.
use impostarr.Prelude.{
  ℕ, suc, String, ◌≡◌, Bool, true, false, ◌&&◌, ◌||◌, Option, List, [], ◌∷◌, arith, ltb, leb, ◌==◌,
}
use Prim.Native.Nat.{max}

pub data Status : Type 0 where
  hold pending active matched quarantine inconclusive error remediated : Status

-- Equality of two statuses, which the source compares as strings.
abbrev pub is : Status → Status → Bool
is hold hold = true
is pending pending = true
is active active = true
is matched matched = true
is quarantine quarantine = true
is inconclusive inconclusive = true
is error error = true
is remediated remediated = true
is _ _ = false

pub is-eq : (s t : Status) → is s t ≡ true → s ≡ t
is-eq s t h = ground arith

pub record Row : Type 0 where
  pub id : ℕ
  pub file_id : ℕ
  pub status : Status
  pub attempts : ℕ
  pub claimed_by : Option String
  pub claimed_at : Option ℕ
  pub heartbeat_at : Option ℕ
  pub created_at : ℕ

-- The primary key that the database gives to a new row.
unfoldable pub next_id : List Row → ℕ
next_id [] = 1
next_id (r ∷ rs) = max (suc r.id) (next_id rs)

-- The order of `order_by(Job.created_at.asc(), Job.id.asc())`.
abbrev pub before : Row → Row → Bool
before r q = ltb r.created_at q.created_at || (r.created_at == q.created_at && leb r.id q.id)
