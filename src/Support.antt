-- ===== src/Support.antt =====
-- app/services/support_moderation.py: who may write to the support bot.
pub mod Mutes
use skladbase.Prelude.{
  ℕ, suc, ◌+◌, ◌-◌, ◌/◌, Bool, true, false, Option, none, some, List, ◌∷◌, ◌==◌, leb, if◌then◌else◌,
}
use skladbase.Prelude.Tables.{select_one, save}

pub record SupportBan : Type 0 where
  pub id : ℕ
  pub tg_id : ℕ
  pub muted_until : Option ℕ
  pub banned : Bool
  pub created_at : ℕ

-- The table, newest row first, and its sequence.
pub record Bans : Type 0 where
  pub rows : List SupportBan
  pub next_ban : ℕ

abbrev pub mute_duration : ℕ
mute_duration = 3600

abbrev pub is_user : ℕ → SupportBan → Bool
is_user tg_id ban = ban.tg_id == tg_id

abbrev pub get_ban : ℕ → Bans → Option SupportBan
get_ban tg_id b = select_one (is_user tg_id) b.rows

abbrev pub new_ban : ℕ → ℕ → ℕ → SupportBan
new_ban now tg_id id = record {
  id = id;
  tg_id = tg_id;
  muted_until = none;
  banned = false;
  created_at = now;
}

-- `_get_or_create`, and the change of the row that it gives
abbrev pub change_or_create : ℕ → ℕ → (SupportBan → SupportBan) → Option SupportBan → Bans → Bans
change_or_create now tg_id f (some ban) b = record b { rows = save SupportBan.id (f ban) b.rows }
change_or_create now tg_id f none b = record b {
  rows = f (new_ban now tg_id b.next_ban) ∷ b.rows;
  next_ban = suc b.next_ban;
}

abbrev pub muted : ℕ → SupportBan → SupportBan
muted until ban = record ban { muted_until = some until }

abbrev pub barred : SupportBan → SupportBan
barred ban = record ban { banned = true }

abbrev pub cleared : SupportBan → SupportBan
cleared ban = record ban { banned = false; muted_until = none }

unfoldable pub mute_user : ℕ → ℕ → ℕ → Bans → Bans
mute_user now tg_id duration b =
    change_or_create now tg_id (muted (now + duration)) (get_ban tg_id b) b

unfoldable pub ban_user : ℕ → ℕ → Bans → Bans
ban_user now tg_id b = change_or_create now tg_id barred (get_ban tg_id b) b

abbrev pub clear_found : Option SupportBan → Bans → Bans
clear_found none b = b
clear_found (some ban) b = record b { rows = save SupportBan.id (cleared ban) b.rows }

unfoldable pub unban_user : ℕ → Bans → Bans
unban_user tg_id b = clear_found (get_ban tg_id b) b

-- `math.ceil(seconds / 60)`
abbrev pub minutes_left : ℕ → ℕ → Option ℕ
minutes_left now until = if leb until now then none else some ((until - now + 59) / 60)

abbrev pub minutes_of : ℕ → Option ℕ → Option ℕ
minutes_of now none = none
minutes_of now (some until) = minutes_left now until

unfoldable pub remaining_mute_minutes : ℕ → Option SupportBan → Option ℕ
remaining_mute_minutes now none = none
remaining_mute_minutes now (some ban) = minutes_of now ban.muted_until
