-- ===== src/Team/Entry.antt =====
-- app/services/bootstrap.py: whose membership a user gets, and in which shop.
use skladbase.Prelude.{
  ℕ, ◌≡◌, refl, inr, String, Bool, true, false, Option, none, some, arith, Memᴰ, is_some, has_text,
  if◌then◌else◌,
}
use mathlib.Core.List.Memᴰ.{head}
use skladbase.Prelude.Tables.{select_one}
use skladbase.Session.{Result, ok, err, Tx}
use skladbase.Session.Whole.{opened}
use skladbase.Team.{Member, Invite, Team}
use skladbase.Team.Join.{
  TelegramUser, joined, find_membership, find_membership_in_shop, parse_invite_token,
  find_active_invite, Entry, unless_there, by_invite, join_existing_member,
}
use skladbase.Team.Bootstrap.{
  bootstrap_shop, unless_member, by_first_invite, invite_of, after_shop, as_existing, status_of,
  has_slug,
}
use skladbase.Team.Admission.{
  find_membership-own, seat_lem, join_via_invite-InShop, find_active-Admits, Untouched, InShop,
  Admits,
}

-- A committed membership of the user; and one that was joined is in the shop of an invite that
-- admits to it. What raised has committed nothing.
abbrev pub Rightful : ℕ → ℕ → Option String → (Team → Team) → Team → Result Entry × Tx Team → Type 0
Rightful now tg_id token rival s (err e, t) = Untouched rival s t
Rightful now tg_id token rival s (ok entry, t) =
    (entry.0.tg_id ≡ tg_id)
    × Memᴰ entry.0 t.committed.members
    × ((entry.1 ≡ some joined)
        → (text : String) × (i : Invite) × (token ≡ some text)
          × Admits now text s i
          × (entry.0.shop_id ≡ i.shop_id))

joined-Rightful :
    (now tg_id : ℕ) (text : String) (rival : Team → Team) (s : Team) (i : Invite)
    (out : Result Entry × Tx Team)
    → find_active_invite now text s ≡ some i
    → InShop tg_id i.shop_id rival s out
    → Rightful now tg_id (some text) rival s out
joined-Rightful now tg_id text rival s i (err e, t) found h = h
joined-Rightful now tg_id text rival s i (ok entry, t) found h =
    (h.0, h.2, λ e. (text, i, refl, find_active-Admits now text s i found, h.1))

by_invite-Rightful :
    (now : ℕ) (user : TelegramUser) (existing : Member) (text : String) (rival : Team → Team)
    (s : Team) (o : Option Invite)
    → existing.tg_id ≡ user.id
    → Memᴰ existing s.members
    → find_active_invite now text s ≡ o
    → Rightful now user.id (some text) rival s (by_invite user existing rival o (opened s))
by_invite-Rightful now user existing text rival s none own kept found =
    (own, kept, λ e. absurd (ground arith))
by_invite-Rightful now user existing text rival s (some i) own kept found =
    there (find_membership_in_shop user.id i.shop_id s) refl
  where
    there :
        (o : Option Member)
        → find_membership_in_shop user.id i.shop_id s ≡ o
        → Rightful now user.id (some text) rival s (unless_there user i rival o (opened s))
    there none e =
        joined-Rightful now user.id text rival s i _ found (join_via_invite-InShop user i rival s)
    there (some m) e =
        let seat = seat_lem user.id i.shop_id s.members e in
        (seat.0, seat.2, λ h. absurd (ground arith))

join_existing-Rightful :
    (now : ℕ) (user : TelegramUser) (existing : Member) (token : Option String)
    (rival : Team → Team) (s : Team)
    → existing.tg_id ≡ user.id
    → Memᴰ existing s.members
    → Rightful now user.id token rival s
        (join_existing_member now user existing token rival (opened s))
unfolding join_existing_member
join_existing-Rightful now user existing none rival s own kept =
    (own, kept, λ e. absurd (ground arith))
join_existing-Rightful now user existing (some text) rival s own kept =
    by_invite-Rightful now user existing text rival s (find_active_invite now text s) own kept refl

not_joined : (token : Option String) → status_of token ≡ some joined → true ≡ false
not_joined none e = absurd (ground arith)
not_joined (some text) e = absurd (ground arith)

as_existing-Rightful :
    (now tg_id : ℕ) (token : Option String) (rival : Team → Team) (s : Team) (o : Option Member)
    → find_membership tg_id (rival s).members ≡ o
    → Rightful now tg_id token rival s (as_existing o (opened (rival s)))
as_existing-Rightful now tg_id token rival s none e = inr refl
as_existing-Rightful now tg_id token rival s (some m) e =
    let own = find_membership-own tg_id (rival s).members e in
    (own.0, own.1, λ h. absurd (ground arith))

after_shop-Rightful :
    (now : ℕ) (user : TelegramUser) (name slug : String) (token : Option String)
    (rival : Team → Team) (s : Team) (b : Bool)
    → Rightful now user.id token rival s (after_shop now user name slug token b (opened (rival s)))
after_shop-Rightful now user name slug token rival s true =
    as_existing-Rightful now user.id token rival s (find_membership user.id (rival s).members) refl
after_shop-Rightful now user name slug token rival s false =
    (refl, head refl, λ e. absurd (ground (arith, not_joined token e)))

first-Rightful :
    (now : ℕ) (user : TelegramUser) (name slug : String) (token : Option String)
    (rival : Team → Team) (s : Team) (o : Option Invite)
    → invite_of now token s ≡ o
    → Rightful now user.id token rival s
        (by_first_invite now user name slug token rival o (opened s))
first-Rightful now user name slug token rival s none e =
    after_shop-Rightful now user name slug token rival s
      (is_some (select_one (has_slug slug) (rival s).shops))
first-Rightful now user name slug none rival s (some i) e = absurd (ground arith)
first-Rightful now user name slug (some text) rival s (some i) e =
    joined-Rightful now user.id text rival s i _ (usable (has_text (some text)) e)
      (join_via_invite-InShop user i rival s)
  where
    usable :
        (b : Bool)
        → (if b then find_active_invite now text s else none) ≡ some i
        → find_active_invite now text s ≡ some i
    usable true h = h
    usable false h = absurd (ground arith)

-- Whatever other requests commit meanwhile, a user who comes in gets a membership of its own that is
-- committed; one that counts as joined is in the shop of an invite with the token of the start
-- parameter, which is not revoked and has not ended, and whose shop is active; and a call that raises
-- has committed nothing of its own.
pub bootstrap_shop-Rightful :
    (now : ℕ) (user : TelegramUser) (name slug : String) (start_param : Option String)
    (rival : Team → Team) (s : Team)
    → Rightful now user.id
        (parse_invite_token start_param)
        rival
        s
        (bootstrap_shop now user name slug start_param rival (opened s))
unfolding bootstrap_shop
bootstrap_shop-Rightful now user name slug start_param rival s =
    known (find_membership user.id s.members) refl
  where
    token : Option String
    token = parse_invite_token start_param

    known :
        (o : Option Member)
        → find_membership user.id s.members ≡ o
        → Rightful now user.id token rival s
            (unless_member now user name slug token rival o (opened s))
    known none e = first-Rightful now user name slug token rival s (invite_of now token s) refl
    known (some existing) e =
        let own = find_membership-own user.id s.members e in
        join_existing-Rightful now user existing token rival s own.0 own.1
