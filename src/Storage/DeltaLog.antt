-- ===== src/Storage/DeltaLog.antt =====
-- deltalog/log.go: the append-only history.
pub mod Laws
use fun_project.Common.{
  ℕ, suc, String, Bool, true, false, ◌||◌, ◌&&◌, List, [], ◌∷◌, ◌++◌, ◌==◌, ltb, leb, nat_eq,
  if◌then◌else◌,
}
use fun_project.Common.Exec.{pure, ◌>>=◌, ◌>>◌}
use fun_project.Storage.Schema.Types.{is_zero}
use fun_project.Storage.Query.{ℤ, pos, negsuc}
use fun_project.Storage.Session.{Env, Db, LogEntry, Tx, get_db, put_db, now}

-- Append: the counter gives the id; `occurred_at` defaults to the time of the call.
unfoldable pub append : Env → LogEntry → Tx ℕ
append env e = do
  t ← now env
  db ← get_db
  let id = suc db.last_entry_id
  let e' = record e {
    entry_id = id;
    occurred_at = if is_zero e.occurred_at then t else e.occurred_at;
    recorded_at = t;
  }
  put_db (record db { delta_log = db.delta_log ++ e' ∷ []; last_entry_id = id })
  pure id

-- Zero values mean "no filter on that field".
pub record ReadOpts : Type 0 where
  pub from_entry_id : ℤ
  pub entity_id : String
  pub relationship_id : String
  pub transaction_id : String
  pub limit : ℤ

unfoldable wanted : String → String → Bool
wanted want have = want == "" || have == want

-- The clause on the number of the entry, for a first number that is above 0
unfoldable pub behind : ℤ → ℕ → Bool
behind (negsuc n) id = true
behind (pos n) id = nat_eq n 0 || leb n id

-- The WHERE clause that Read builds.
unfoldable pub selects : ReadOpts → LogEntry → Bool
unfolding wanted behind
selects o e =
    behind o.from_entry_id e.entry_id
    && wanted o.entity_id e.entity_id
    && wanted o.relationship_id e.relationship_id
    && wanted o.transaction_id e.transaction_id

-- The first `n` entries of the log, in its order, that the clause selects.
unfoldable pub select : ReadOpts → ℕ → List LogEntry → List LogEntry
select o ℕ.zero log = []
select o (suc n) [] = []
select o (suc n) (e ∷ log) = elim (selects o e) [
  | true ↦ e ∷ select o n log
  | false ↦ select o (suc n) log
]

unfoldable pub effective_limit : ℤ → ℕ
effective_limit (negsuc n) = 100
effective_limit (pos n) = if nat_eq n 0 || ltb 1000 n then 100 else n

-- Read
unfoldable pub read : ReadOpts → Db → List LogEntry
unfolding select effective_limit
read o db = select o (effective_limit o.limit) db.delta_log
