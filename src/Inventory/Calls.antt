-- ===== src/Inventory/Calls.antt =====
-- The calls that the API makes of the stock service, and a history of requests. A request opens a
-- session on what is committed, makes its call, which commits by itself, and closes the session.
use skladbase.Prelude.{ℕ, String, Bool, true, Option, List, [], ◌∷◌}
use skladbase.Prelude.Int.{ℤ}
use skladbase.Models.{Variant, Reservation, ReservationSource, Db}
use skladbase.Session.{Session, Result, ok, err, Action}
use skladbase.Inventory.{
  reserve, release, fulfill, ship, update_ttn, pick_up, not_picked_up, sell_direct, restock,
  write_off,
}
use skladbase.Inventory.Refines.{
  Ends, reserve-Ends, release-Ends, fulfill-Ends, ship-Ends, update_ttn-Ends, pick_up-Ends,
  not_picked_up-Ends, sell_direct-Ends, restock-Ends, write_off-Ends,
}

pub data Call : Type 0 where
  reserves : ℕ → ℤ → ReservationSource → Option String → Option String → Option ℕ → Option ℕ → Call
  releases : ℕ → Option String → Option String → Call
  fulfills : ℕ → Call
  ships : ℕ → Option String → Call
  updates_ttn : ℕ → String → Call
  picks_up : ℕ → Call
  returns : ℕ → String → Option String → Call
  sells : ℕ → ℤ → Option ℕ → Call
  restocks : ℕ → ℤ → Call
  writes_off : ℕ → ℤ → String → Option String → Call

pub data Reply : Type 0 where
  reservation : Reservation → Reply
  variant : Variant → Reply

abbrev pub replies : {A : Type 0} → (A → Reply) → Result A × Session → Result Reply × Session
replies f (ok a, s) = (ok (f a), s)
replies f (err e, s) = (err e, s)

-- One call, for the shop of the member who makes it.
unfoldable pub call : ℕ → ℕ → Call → Bool → Action Session Reply
call now shop (reserves k qty source reason customer expires order) commit s =
    replies reservation (reserve now shop k qty source reason customer expires order commit s)
call now shop (releases k reason comment) commit s =
    replies reservation (release now shop k reason comment commit s)
call now shop (fulfills k) commit s = replies reservation (fulfill now shop k commit s)
call now shop (ships k ttn) commit s = replies reservation (ship now shop k ttn commit s)
call now shop (updates_ttn k ttn) commit s = replies reservation (update_ttn shop k ttn commit s)
call now shop (picks_up k) commit s = replies reservation (pick_up now shop k commit s)
call now shop (returns k reason comment) commit s =
    replies reservation (not_picked_up now shop k reason comment commit s)
call now shop (sells k qty order) commit s =
    replies variant (sell_direct now shop k qty order commit s)
call now shop (restocks k qty) commit s = replies variant (restock now shop k qty commit s)
call now shop (writes_off k qty reason comment) commit s =
    replies variant (write_off now shop k qty reason comment commit s)

Ends-replies :
    {A : Type 0} (shop : ℕ) (commit : Bool) (s : Session) (f : A → Reply) (out : Result A × Session)
    → Ends shop commit s out
    → Ends shop commit s (replies f out)
Ends-replies shop commit s f (ok a, t) h = h
Ends-replies shop commit s f (err e, t) h = h

-- Each call either raises and leaves the session as it was, or has one of the effects that the
-- contract lists, in the caller's shop, and is committed exactly if that was asked for.
pub call-Ends :
    (now shop : ℕ) (c : Call) (commit : Bool) (s : Session)
    → Ends shop commit s (call now shop c commit s)
unfolding call
call-Ends now shop (reserves k qty source reason customer expires order) commit s =
    Ends-replies shop commit s reservation _
      (reserve-Ends now shop k qty source reason customer expires order commit s)
call-Ends now shop (releases k reason comment) commit s =
    Ends-replies shop commit s reservation _ (release-Ends now shop k reason comment commit s)
call-Ends now shop (fulfills k) commit s =
    Ends-replies shop commit s reservation _ (fulfill-Ends now shop k commit s)
call-Ends now shop (ships k ttn) commit s =
    Ends-replies shop commit s reservation _ (ship-Ends now shop k ttn commit s)
call-Ends now shop (updates_ttn k ttn) commit s =
    Ends-replies shop commit s reservation _ (update_ttn-Ends shop k ttn commit s)
call-Ends now shop (picks_up k) commit s =
    Ends-replies shop commit s reservation _ (pick_up-Ends now shop k commit s)
call-Ends now shop (returns k reason comment) commit s =
    Ends-replies shop commit s reservation _ (not_picked_up-Ends now shop k reason comment commit s)
call-Ends now shop (sells k qty order) commit s =
    Ends-replies shop commit s variant _ (sell_direct-Ends now shop k qty order commit s)
call-Ends now shop (restocks k qty) commit s =
    Ends-replies shop commit s variant _ (restock-Ends now shop k qty commit s)
call-Ends now shop (writes_off k qty reason comment) commit s =
    Ends-replies shop commit s variant _ (write_off-Ends now shop k qty reason comment commit s)

abbrev pub opened_on : Db → Session
opened_on d = record { committed = d; work = d }

-- what one request makes of the database
unfoldable pub request : ℕ → ℕ → Call → Db → Db
request now shop c d = (call now shop c true (opened_on d)).1.committed

pub record Request : Type 0 where
  pub at : ℕ
  pub shop : ℕ
  pub what : Call

unfoldable pub history : List Request → Db → Db
history [] d = d
history (q ∷ qs) d = history qs (request q.at q.shop q.what d)
