-- ===== src/MailAccount/Refine/Simulation.antt =====
-- One call on a connection against one function of the tables, and how the calls of a transaction
-- are put together.
use shiroyagi.Base.{
  ◌≡◌, refl, sym, ap, ◌∙◌, ◌⊎◌, inl, inr, Bool, true, false, List, [], arith, if◌then◌else◌,
}
use shiroyagi.Base.Result
use shiroyagi.Base.Result.{Result, ok, err}
use shiroyagi.Base.Exec.{Exec, pure, map_err, ◌>>◌}
use shiroyagi.Text.{Bytes}
use shiroyagi.MailAccount.Schema.{Database, DbError}
use shiroyagi.MailAccount.Conn.{Conn, Error, later, advance, statement, transaction}
use shiroyagi.MailAccount.Store
use shiroyagi.MailAccount.Store.{Account}
use shiroyagi.MailAccount.Spec.{either}

-- A call that succeeded did what `y` says, or it failed.
abbrev pub Did : Result Error (Unit {0}) × Conn → Result Error Database → Type 0
Did x y = ((x.0 ≡ ok tt) × (y ≡ ok x.1.db)) ⊎ ((e : Error) × (x.0 ≡ err e))

-- A call without faults has the outcome of `y`, and leaves none behind.
abbrev pub outcome : Result Error Database → Result Error (Unit {0})
outcome (ok db) = ok tt
outcome (err e) = err e

abbrev Call : Type 0
Call = Exec Conn Error (Unit {0})

-- A call that may come in a transaction, with the function of the tables that it simulates.
pub record Simulates (m : Call) (f : Database → Result Error Database) : Type 0 where
  pub did : (c : Conn) → Did (m c) (f c.db)
  pub clean : (c : Conn) → c.faults ≡ [] → ((m c).0 ≡ outcome (f c.db)) × ((m c).1.faults ≡ [])

outcome-eq-err : (y : Result Error Database) (e : Error) → outcome y ≡ err e → y ≡ err e
outcome-eq-err (ok db) e h = absurd (cc)
outcome-eq-err (err x) e h = cc

pub Simulates-bind :
    {m k : Call} {f g : Database → Result Error Database}
    → Simulates m f
    → Simulates k g
    → Simulates (m >> k) (λ db. Result.◌>>=◌ (f db) g)
Simulates-bind {m} {k} {f} {g} hm hk = record {
  did =
      λ c. elim (hm.did c) [ inl (e, y) ↦ rw (e, y) (hk.did (m c).1) | inr (x, e) ↦ inr (x, rw e) ];
  clean = λ c p. elim (hm.did c) [
    | inl (e, y) ↦ rw (e, y) (hk.clean (m c).1 (hm.clean c p).1)
    | inr (x, e) ↦
        let y = outcome-eq-err (f c.db) x (sym (hm.clean c p).0 ∙ e) in
        rw (e, y) (refl, (hm.clean c p).1)
  ];
}

abbrev step_of : (DbError → Error) → (Database → Result DbError Database) → Call
step_of wrap f = map_err wrap (statement (λ db. Store.run (f db)))

pub Simulates-statement :
    (wrap : DbError → Error) (f : Database → Result DbError Database)
    → Simulates (step_of wrap f) (λ db. Result.map_err wrap (f db))
unfolding statement
Simulates-statement wrap f = record { did = λ c. ground arith; clean = λ c p. ground arith }

pub Simulates-if :
    (b : Bool) {m k : Call} {f g : Database → Result Error Database}
    → Simulates m f
    → Simulates k g
    → Simulates (if b then m else k) (either b f g)
Simulates-if true hm hk = hm
Simulates-if false hm hk = hk

pub Simulates-pure : Simulates (pure tt) ok
Simulates-pure = record { did = λ c. inl (refl, refl); clean = λ c p. (refl, p) }

later-nil : {l : List Bool} → l ≡ [] → later l ≡ []
later-nil p = ap later p

module _ {m : Call} {f : Database → Result Error Database} (h : Simulates m f) (l n : Bytes) where
  -- the transaction succeeds and did what `f` says, or it fails and changed no table
  pub transaction_did :
      (c : Conn)
      → (((transaction l n m c).0 ≡ ok tt) × (f c.db ≡ ok (transaction l n m c).1.db))
        ⊎ ((e : Error) × ((transaction l n m c).0 ≡ err e) × ((transaction l n m c).1.db ≡ c.db))
  unfolding transaction
  transaction_did c = ground (arith, h.did (advance c))

  pub transaction_clean : (c : Conn) → c.faults ≡ [] → (transaction l n m c).0 ≡ outcome (f c.db)
  unfolding transaction
  transaction_clean c p = ground (arith, h.clean (advance c) (later-nil p), h.did (advance c))
