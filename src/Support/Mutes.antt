-- ===== src/Support/Mutes.antt =====
-- app/services/support_moderation.py: how long a mute lasts, and what ends it.
use skladbase.Prelude.{
  ℕ, ◌+◌, ◌-◌, ◌*◌, ◌/◌, ◌≤◌, ◌<◌, ◌≡◌, refl, inl, inr, Bool, true, false, Option, none, some, ◌==◌,
  arith, Option-cases, leb,
}
use skladbase.Prelude.Tables.{select_one, select_one-test, save, Below}
use skladbase.Prelude.Selections.{select_one-saved}
use skladbase.Support.{
  SupportBan, Bans, is_user, get_ban, new_ban, change_or_create, muted, cleared, mute_user,
  unban_user, remaining_mute_minutes,
}

-- The row of the user after the change, which was found or is new.
changed-found :
    (now tg_id : ℕ) (f : SupportBan → SupportBan) (b : Bans)
    → ((ban : SupportBan) → (f ban).id ≡ ban.id)
    → ((ban : SupportBan) → (f ban).tg_id ≡ ban.tg_id)
    → Below SupportBan.id b.next_ban b.rows
    → (ban : SupportBan) × (get_ban tg_id (change_or_create now tg_id f (get_ban tg_id b) b)
        ≡ some (f ban))
unfolding select_one
changed-found now tg_id f b key user numbered =
    elim (Option-cases (select_one (is_user tg_id) b.rows)) [
      | inl missing ↦
          let ban : SupportBan = new_ban now tg_id b.next_ban in
          let hit : ((f ban).tg_id == tg_id) ≡ true = ground (arith, user ban) in
          rw missing (ban, rw hit refl)
      | inr (ban, found) ↦
          let test = select_one-test (is_user tg_id) b.rows found in
          rw found (
            ban,
            select_one-saved SupportBan.id (is_user tg_id) b.next_ban (f ban) b.rows numbered found
                (key ban) (ground (arith, user ban, test)),
          )
    ]

-- Where keys are unique a mute of a user, whether there was a row or not, holds exactly until its end: before that the
-- minutes that are reported cover what is left and are less than a minute too many; from then on
-- nothing is reported.
pub mute_user-minutes :
    (now later tg_id duration : ℕ) (b : Bans)
    → Below SupportBan.id b.next_ban b.rows
    → ((later < now + duration)
        → (m : ℕ) × (remaining_mute_minutes later (get_ban tg_id (mute_user now tg_id duration b))
            ≡ some m)
          × (now + duration ≤ later + m * 60)
          × (later + m * 60 < now + duration + 60))
      × ((now + duration ≤ later)
          → remaining_mute_minutes later (get_ban tg_id (mute_user now tg_id duration b)) ≡ none)
unfolding mute_user remaining_mute_minutes
mute_user-minutes now later tg_id duration b numbered =
    let until = now + duration in
    let (ban, found) = changed-found now tg_id (muted until) b (λ x. refl) (λ x. refl) numbered in
    (
      (λ before.
          let over : leb until later ≡ false = ground arith in
          (
            (until - later + 59) / 60,
            rw (found, over) refl,
            omega (arith, before),
            omega (arith, before),
          )),
      (λ after. let over : leb until later ≡ true = ground arith in rw (found, over) refl),
    )

abbrev pub is_banned : Option SupportBan → Bool
is_banned none = false
is_banned (some ban) = ban.banned

-- Where keys are unique, whatever a user was muted or banned for before, after `unban_user` the
-- user is neither, at any time.
pub unban_user-clears :
    (later tg_id : ℕ) (b : Bans)
    → Below SupportBan.id b.next_ban b.rows
    → (is_banned (get_ban tg_id (unban_user tg_id b)) ≡ false)
      × (remaining_mute_minutes later (get_ban tg_id (unban_user tg_id b)) ≡ none)
unfolding unban_user remaining_mute_minutes
unban_user-clears later tg_id b numbered = elim (Option-cases (select_one (is_user tg_id) b.rows)) [
  | inl missing ↦ rw (missing, missing) (refl, refl)
  | inr (ban, found) ↦
      let test = select_one-test (is_user tg_id) b.rows found in
      let after : select_one (is_user tg_id) (save SupportBan.id (cleared ban) b.rows)
          ≡ some (cleared ban) =
        select_one-saved SupportBan.id (is_user tg_id) b.next_ban (cleared ban) b.rows numbered
          found refl test in
      rw (found, after) (refl, refl)
]
