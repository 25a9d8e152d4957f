-- ===== src/Platform/Session/Rules.antt =====
-- What the actions of a session keep: the committed tables, unless the action is a commit.
use post_base.Base.{arith, refl, ℕ, ◌≡◌}
use post_base.Domain.Models.{CapabilityBinding, Environment}
use post_base.Platform.Errors.{Constraint, Result, err, integrity_error}
use post_base.Platform.Exec.{Exec, ◌>>=◌}
use post_base.Platform.Exec.Rules.{Keeps, KeepsOnError, keeps_rules}
use post_base.Platform.Session.{
  Db, Session, after_flush, commit, flush, gets, modify_binding, modify_environment,
  read_row_object, rollback, try_flush, update,
}

-- The committed tables are those of `d`.
pub record Committed (d : Db) (s : Session) : Type 0 where
  pub eq : s.committed ≡ d

-- A read keeps everything.
pub gets-Keeps : {A : Type 0} (P : Session → Type 0) (f : Db → A) → Keeps P (gets f)
unfolding gets
gets-Keeps P f = record { holds = λ s h. h }

pub ruleset reading_rules = (keeps_rules, gets-Keeps)

module _ (d : Db) where
  pub update-Committed : (f : Db → Db) → Keeps (Committed d) (update f)
  unfolding update
  update-Committed f = record { holds = λ s h. record { eq = h.eq } }

  pub flush-Committed : Keeps (Committed d) flush
  unfolding flush
  flush-Committed = record { holds = λ s h. record { eq = ground (arith, h.eq) } }

  pub rollback-Committed : Keeps (Committed d) rollback
  unfolding rollback
  rollback-Committed = record { holds = λ s h. record { eq = h.eq } }

  pub read_row_object-Committed : Keeps (Committed d) read_row_object
  unfolding read_row_object
  read_row_object-Committed = record { holds = λ s h. ground (arith, h) }

  pub modify_binding-Committed :
      (id : ℕ) (f : CapabilityBinding → CapabilityBinding)
      → Keeps (Committed d) (modify_binding id f)
  unfolding modify_binding
  modify_binding-Committed id f = record { holds = λ s h. record { eq = h.eq } }

  pub modify_environment-Committed :
      (id : ℕ) (f : Environment → Environment) → Keeps (Committed d) (modify_environment id f)
  unfolding modify_environment
  modify_environment-Committed id f = record { holds = λ s h. record { eq = h.eq } }

after_flush-Keeps :
    {P : Session → Type 0} (handler : Constraint → Exec Session Unit)
    → ((c : Constraint) → Keeps P (handler c))
    → (r : Result (Unit {0})) (s : Session) → P s
    → P (after_flush handler r s).1
after_flush-Keeps handler kh (err (integrity_error c)) s h = (kh c).holds s h
after_flush-Keeps handler kh r s h = h

-- A flush with a handler keeps what the flush and the handler keep.
pub try_flush-Keeps :
    {P : Session → Type 0} (handler : Constraint → Exec Session Unit)
    → Keeps P flush
    → ((c : Constraint) → Keeps P (handler c))
    → Keeps P (try_flush handler)
unfolding try_flush
try_flush-Keeps handler kf kh = record {
  holds = λ s h. after_flush-Keeps handler kh (flush s).0 (flush s).1 (kf.holds s h);
}

-- A commit that raises has changed nothing that is committed.
pub commit-KeepsOnError : (d : Db) → KeepsOnError (Committed d) commit
unfolding commit ◌>>=◌
commit-KeepsOnError d = record { on_error = λ s e h raised. record { eq = ground (arith, h.eq) } }

pub ruleset committed_rules = (
  reading_rules, update-Committed, flush-Committed, rollback-Committed, read_row_object-Committed,
  modify_binding-Committed, modify_environment-Committed, try_flush-Keeps,
)

-- A read and a write, each followed by the rest of the handler.
pub bind-gets :
    {A B : Type 0} (f : Db → A) (k : A → Exec Session B) (s : Session)
    → (gets f >>= k) s ≡ k (f s.db) s
unfolding gets ◌>>=◌
bind-gets f k s = refl

pub bind-update :
    {B : Type 0} (f : Db → Db) (k : Unit {0} → Exec Session B) (s : Session)
    → (update f >>= k) s ≡ k tt (record s { db = f s.db })
unfolding update ◌>>=◌
bind-update f k s = refl
