-- ===== src/Interleaving/Runs.antt =====
-- Any number of calls on one database: each step is a statement of one of them, a call that stops
-- where it is, or a new call.
use mathlib.Core.Path.{subst}
use flash_core.Common.{
  ℕ, ◌+◌, ◌≤◌, ◌≡◌, refl, sym, ap, Bool, true, false, List, [], ◌∷◌, ◌++◌, arith,
}
use flash_core.Common.Table.{sum_by, sum-append}
use flash_core.Store.{Db}
use flash_core.Orders.Ledger.{Shelf, held}
use flash_core.Orders.Ledger.Cancelling.{total_on}
use flash_core.Interleaving.Calls.{Call, Moment, advance, in_flight}
use flash_core.Interleaving.Keys.{IsConsistent, SameShelves, IsBacked, IsBacked-kept}
use flash_core.Interleaving.Balance.{Advances}
use flash_core.Interleaving.Advancing.{stopped-Advances, advance-Advances}

pub record System : Type 0 where
  pub db : Db
  pub calls : List Call

-- A request, a job or a webhook that has run no statement yet.
abbrev pub is_new : Call → Bool
is_new (Call.reserving user key sku q) = true
is_new (Call.claiming user key sale q) = true
is_new (Call.cancelling id scope) = true
is_new (Call.settling input) = true
is_new _ = false

pub data Step (s t : System) : Type 0 where
  runs :
      (before after : List Call) (call : Call) (m : Moment)
      → s.calls ≡ before ++ (call ∷ after)
      → t ≡ record {
        db = (advance m call s.db).1;
        calls = before ++ ((advance m call s.db).0 ∷ after);
      }
      → Step s t
  stops :
      (before after : List Call) (call : Call)
      → s.calls ≡ before ++ (call ∷ after)
      → t ≡ record s { calls = before ++ (Call.stopped call ∷ after) }
      → Step s t
  arrives : (call : Call) → is_new call ≡ true → t ≡ record s { calls = call ∷ s.calls } → Step s t

pub data Reach (s : System) : System → Type 0 where
  here : Reach s s
  next : {t u : System} → Reach s t → Step t u → Reach s u

-- The units that all calls have in flight.
abbrev pub flights : Shelf → List Call → ℕ
flights shelf calls = sum_by (in_flight shelf) calls

abbrev pub AreBacked : List Call → Db → Type 0
AreBacked [] db = Unit
AreBacked (call ∷ calls) db = IsBacked call db × AreBacked calls db

-- Where every unit of a shelf is: in stock, in live orders, or in flight.
abbrev pub everywhere : Shelf → System → ℕ
everywhere shelf s = total_on shelf s.db + flights shelf s.calls

AreBacked-pick :
    (before after : List Call) (call : Call) (db : Db)
    → AreBacked (before ++ (call ∷ after)) db
    → IsBacked call db
AreBacked-pick [] after call db h = h.0
AreBacked-pick (c ∷ before) after call db h = AreBacked-pick before after call db h.1

module _ (db d : Db) (same : SameShelves db d) where
  AreBacked-kept : (calls : List Call) → AreBacked calls db → AreBacked calls d
  AreBacked-kept [] h = tt
  AreBacked-kept (c ∷ calls) h = (IsBacked-kept db d same c h.0, AreBacked-kept calls h.1)

  AreBacked-replace :
      (before after : List Call) (call call' : Call)
      → AreBacked (before ++ (call ∷ after)) db
      → IsBacked call' d
      → AreBacked (before ++ (call' ∷ after)) d
  AreBacked-replace [] after call call' h new = (new, AreBacked-kept after h.1)
  AreBacked-replace (c ∷ before) after call call' h new =
      (IsBacked-kept db d same c h.0, AreBacked-replace before after call call' h.1 new)

-- The books against the total `n`, and what the next statement relies on.
pub record IsBooked (shelf : Shelf) (n : ℕ) (s : System) : Type 0 where
  pub books : everywhere shelf s ≡ n
  pub keys : IsConsistent s.db
  pub backed : AreBacked s.calls s.db

is_new-in_flight :
    (shelf : Shelf) (call : Call) (db : Db)
    → is_new call ≡ true
    → (in_flight shelf call ≡ 0) × IsBacked call db
is_new-in_flight shelf (Call.reserving user key sku q) db e = (refl, tt)
is_new-in_flight shelf (Call.claiming user key sale q) db e = (refl, tt)
is_new-in_flight shelf (Call.taking user key sale q) db e = absurd (cc)
is_new-in_flight shelf (Call.creating input) db e = absurd (cc)
is_new-in_flight shelf (Call.cancelling id scope) db e = (refl, tt)
is_new-in_flight shelf (Call.releasing rows) db e = absurd (cc)
is_new-in_flight shelf (Call.unclaiming sale user q rows) db e = absurd (cc)
is_new-in_flight shelf (Call.settling input) db e = (refl, tt)
is_new-in_flight shelf Call.ended db e = absurd (cc)
is_new-in_flight shelf (Call.stopped call) db e = absurd (cc)

module _ (shelf : Shelf) (n : ℕ) where
  runs-IsBooked :
      (before after : List Call) (call : Call) (db : Db) (res : Call × Db)
      → IsBooked shelf n (record { db = db; calls = before ++ (call ∷ after) })
      → Advances shelf call db res
      → IsBooked shelf n (record { db = res.1; calls = before ++ (res.0 ∷ after) })
  runs-IsBooked before after call db res booked step = record {
    books = omega (
      arith,
      booked.books,
      step.balance,
      sum-append (in_flight shelf) before (call ∷ after),
      sum-append (in_flight shelf) before (res.0 ∷ after),
    );
    keys = step.keys;
    backed =
        AreBacked-replace db res.1 step.shelves before after call res.0 booked.backed step.backed;
  }

  stops-IsBooked :
      (before after : List Call) (call : Call) (db : Db)
      → IsBooked shelf n (record { db = db; calls = before ++ (call ∷ after) })
      → IsBooked shelf n (record { db = db; calls = before ++ (Call.stopped call ∷ after) })
  stops-IsBooked before after call db booked =
      runs-IsBooked before after call db (Call.stopped call, db) booked
        (stopped-Advances shelf call db booked.keys
          (AreBacked-pick before after call db booked.backed))

  arrives-IsBooked :
      (call : Call) (s : System)
      → is_new call ≡ true
      → IsBooked shelf n s
      → IsBooked shelf n (record s { calls = call ∷ s.calls })
  arrives-IsBooked call s new booked = record {
    books = omega (arith, booked.books, (is_new-in_flight shelf call s.db new).0);
    keys = booked.keys;
    backed = ((is_new-in_flight shelf call s.db new).1, booked.backed);
  }

  at_calls :
      (s : System) (calls : List Call)
      → s.calls ≡ calls
      → IsBooked shelf n s
      → IsBooked shelf n (record { db = s.db; calls = calls })
  at_calls s calls e booked =
      subst (λ cs. IsBooked shelf n (record { db = s.db; calls = cs })) e booked

  Step-IsBooked : {s t : System} → Step s t → IsBooked shelf n s → IsBooked shelf n t
  Step-IsBooked {s} (runs before after call m e f) booked =
      let picked = at_calls s (before ++ (call ∷ after)) e booked in
      subst (IsBooked shelf n) (sym f) (
        runs-IsBooked before after call s.db (advance m call s.db) picked (
          advance-Advances shelf m call s.db picked.keys
            (AreBacked-pick before after call s.db picked.backed)))
  Step-IsBooked {s} (stops before after call e f) booked =
      subst (IsBooked shelf n) (sym f)
        (stops-IsBooked before after call s.db (at_calls s (before ++ (call ∷ after)) e booked))
  Step-IsBooked {s} (arrives call new f) booked =
      subst (IsBooked shelf n) (sym f) (arrives-IsBooked call s new booked)

  pub Reach-IsBooked : {s t : System} → IsBooked shelf n s → Reach s t → IsBooked shelf n t
  Reach-IsBooked booked here = booked
  Reach-IsBooked booked (next r step) = Step-IsBooked step (Reach-IsBooked booked r)

-- However the statements of any calls interleave, and wherever calls stop: in every state reached
-- from one with its keys in place, where each call's units in flight have a row to go back to, the
-- units of a shelf in stock, in live orders and in flight are as many as at the start.
pub Reach-everywhere :
    (shelf : Shelf) (s t : System)
    → IsConsistent s.db
    → AreBacked s.calls s.db
    → Reach s t
    → everywhere shelf t ≡ everywhere shelf s
Reach-everywhere shelf s t keys backed reach =
    (Reach-IsBooked shelf (everywhere shelf s)
      (record { books = refl; keys = keys; backed = backed }) reach).books

-- Nothing is oversold: from a state with its keys in place and no call under way, in every state
-- reached by any interleaving, live orders hold of a shelf at most what was in stock or held there
-- at the start.
pub Reach-held :
    (shelf : Shelf) (s t : System)
    → IsConsistent s.db
    → s.calls ≡ []
    → Reach s t
    → held shelf t.db ≤ total_on shelf s.db
Reach-held shelf s t keys none_yet reach = omega (
  arith,
  Reach-everywhere shelf s t keys (subst (λ cs. AreBacked cs s.db) (sym none_yet) tt) reach,
  ap (flights shelf) none_yet,
)
