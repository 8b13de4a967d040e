-- ===== src/Samples/TeamRuns.antt =====
-- The theorems on a team, on a shop with its owner and one manager.
use skladbase.Prelude.{refl, true, false, none, some, [], ◌∷◌, arith}
use skladbase.Prelude.Tables.{find}
use skladbase.Access.{MemberRole, Role}
use skladbase.Session.Whole.{opened}
use skladbase.Team.{Member, Invite, Team}
use skladbase.Team.Seats.{Sound}
use skladbase.Team.Guards.{Dutiful}
use skladbase.Team.Duties.{moves, perform, perform-Dutiful}
use skladbase.Team.Join.{TelegramUser, parse_invite_token}
use skladbase.Team.Bootstrap.{bootstrap_shop}
use skladbase.Team.Entry.{Rightful, bootstrap_shop-Rightful}
use skladbase.Samples.ParcelRuns.{cafe}

abbrev boss_role : Role
boss_role = record { id = 1; shop_id = 7; name = "Власник"; grants = λ p. true; is_system = true }

abbrev clerk_role : Role
clerk_role = record { id = 2; shop_id = 7; name = "Менеджер"; grants = λ p. true; is_system = true }

abbrev packer_role : Role
packer_role = record {
  id = 3;
  shop_id = 7;
  name = "Packer";
  grants = λ p. false;
  is_system = false;
}

abbrev boss : Member
boss = record {
  id = 1;
  shop_id = 7;
  tg_id = 900;
  display_name = none;
  role = MemberRole.owner;
  role_id = 1;
  overrides = λ p. none;
}

abbrev clerk : Member
clerk = record boss { id = 2; tg_id = 901; role = MemberRole.manager; role_id = 2 }

abbrev invite : Invite
invite = record {
  id = 1;
  shop_id = 7;
  token = "abc";
  created_by_tg_id = 900;
  created_at = 10;
  expires_at = 5000;
  revoked_at = none;
}

abbrev team : Team
team = record {
  shops = cafe ∷ [];
  roles = packer_role ∷ clerk_role ∷ boss_role ∷ [];
  members = clerk ∷ boss ∷ [];
  invites = invite ∷ [];
  next_shop = 8;
  next_role = 4;
  next_member = 3;
  next_invite = 2;
}

team-Sound : Sound team
unfolding find
team-Sound = record {
  roles_numbered = (omega arith, (omega arith, (omega arith, tt)));
  members_numbered = (omega arith, (omega arith, tt));
  seated = ((clerk_role, refl, refl), ((boss_role, refl, refl), tt));
}

perform-Dutiful_example : Dutiful team (perform 60 (moves 2 3) boss (opened team))
perform-Dutiful_example = perform-Dutiful 60 (moves 2 3) boss team team-Sound

abbrev newcomer : TelegramUser
newcomer = record { id = 950; first_name = "Olha" }

abbrev alone : Team → Team
alone t = t

bootstrap_shop-Rightful_example :
    Rightful 60 950
      (parse_invite_token (some "invite_abc"))
      alone
      team
      (bootstrap_shop 60 newcomer "Shop" "shop-950" (some "invite_abc") alone (opened team))
bootstrap_shop-Rightful_example =
    bootstrap_shop-Rightful 60 newcomer "Shop" "shop-950" (some "invite_abc") alone team
