-- ===== src/Collect/Tests.antt =====
-- The theorems of the collect modes at concrete values.
use spaghettimod.Prelude.{◌+◌, ◌≡◌, refl, arith, Bool, true, false, ◌&&◌, [], ◌∷◌, some}
use spaghettimod.Prelude.Int.{ℤ, pos, ◌+ℤ◌, eqb_ℤ}
use spaghettimod.Game.Names.{same_name}
use spaghettimod.Game.World.{Client, getinfo}
use spaghettimod.Game.Samples.{at, whole, clock, good_player, two_players}
use spaghettimod.Collect.Token.{Token, new_token, findtoken}
use spaghettimod.Collect.Token.Count.{count}
use spaghettimod.Collect.State.{Base, Collect, collectteambase, has_base_team, new_base, totalscore}
use spaghettimod.Collect.Play.Ids.{Fresh, droptokens-Fresh}
use spaghettimod.Collect.Play.Brought.{Scored, deposittokens_brings}
use spaghettimod.Collect.Play.{base_at, deposittokens, droptokens, taketoken, update, counts_for}
use spaghettimod.Collect.Play.Expire.{is_overdue, update-count}
use spaghettimod.Collect.Play.Taken.{taketoken_twice}

-- A skull of the evil team that was dropped long ago, and one of the good team from just now. The
-- mode 20 is collect.
abbrev old_skull : Token ℤ
old_skull = record (new_token whole) { id = 1; team = pos 2; droptime = 30000; dropper = pos 2 }

abbrev fresh_skull : Token ℤ
fresh_skull = record (new_token whole) { id = 2; team = pos 2; droptime = 45000; dropper = pos 2 }

abbrev field : Collect ℤ
field = record {
  world = two_players;
  bases = [];
  tokens = old_skull ∷ fresh_skull ∷ [];
  score1 = pos 0;
  score2 = pos 0;
  nexttoken = 2;
  notgotbases = false;
}

abbrev any_skull : Token ℤ → Bool
any_skull t = true

update-count_example :
    count any_skull (update whole (clock (pos 20)) field).tokens
      + count (λ t. any_skull t && is_overdue whole (clock (pos 20)) t) field.tokens
    ≡ count any_skull field.tokens
update-count_example = update-count whole (clock (pos 20)) any_skull field refl (omega arith)

found : findtoken field.tokens (pos 2) ≡ some fresh_skull
unfolding findtoken
found = refl

enemy_skull :
    counts_for whole (clock (pos 20)) (collectteambase good_player.team) fresh_skull ≡ true
unfolding collectteambase same_name
enemy_skull = refl

known : getinfo field.world.clients good_player.clientnum ≡ some good_player
unfolding getinfo
known = refl

taketoken_twice_example :
    getinfo
      (taketoken whole
        (clock (pos 20))
        (record good_player { tokens = 1 })
        (pos 2)
        (taketoken whole (clock (pos 20)) good_player (pos 2) field)).world.clients
      good_player.clientnum
    ≡ some (record good_player { tokens = 2 })
taketoken_twice_example =
    taketoken_twice whole (clock (pos 20)) good_player (pos 2) fresh_skull field refl refl refl
      found enemy_skull (omega arith) known

field-Fresh : Fresh 2 field.tokens
field-Fresh n = (ground arith, λ k. ground arith)

droptokens-Fresh_example :
    Fresh
      (droptokens whole (clock (pos 20)) good_player false field).nexttoken
      (droptokens whole (clock (pos 20)) good_player false field).tokens
droptokens-Fresh_example =
    droptokens-Fresh whole (clock (pos 20)) good_player false field (omega arith) field-Fresh

-- A good player with three skulls at the base of the evil team.
abbrev carrier : Client ℤ
carrier = record good_player { tokens = 3 }

abbrev evil_base : Base ℤ
evil_base = record (new_base whole) { team = pos 2; o = at 1 }

abbrev base_field : Collect ℤ
base_field = record field {
  world = record two_players { clients = carrier ∷ [] };
  bases = evil_base ∷ [];
}

good_team : collectteambase carrier.team ≡ 1
unfolding collectteambase same_name
good_team = refl

carrier_known : getinfo base_field.world.clients carrier.clientnum ≡ some carrier
unfolding getinfo
carrier_known = refl

enemy_base :
    eqb_ℤ (base_at whole (clock (pos 20)) base_field 0).team (pos (collectteambase carrier.team))
    ≡ false
enemy_base = rw good_team refl

good_has_base : has_base_team (pos (collectteambase carrier.team)) ≡ true
good_has_base = rw good_team refl

deposittokens_brings_example :
    Scored whole
      (clock (pos 20))
      carrier
      (totalscore base_field (pos (collectteambase carrier.team)) +ℤ pos carrier.tokens)
      (deposittokens whole (clock (pos 20)) carrier (pos 0) base_field)
deposittokens_brings_example =
    deposittokens_brings whole (clock (pos 20)) carrier 0 base_field refl (omega arith) refl refl
      refl enemy_base good_has_base (omega arith) carrier_known
