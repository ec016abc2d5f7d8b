-- ===== src/Bots/Samples.antt =====
-- Values for the tests: a client.
use spaghettimod.Prelude.{ℕ, List, false, true}
use spaghettimod.Prelude.Int.{ℤ, pos, negsuc}
use spaghettimod.Game.Names.{Name, name_of}
use spaghettimod.Game.World.{LifeState}
use spaghettimod.Game.Samples.{hurt}
use spaghettimod.Bots.Member.{Session, Member}

abbrev fresh : Session
fresh = record {
  deadflush = 0;
  lastspawn = negsuc 0;
  lastshot = 0;
  tokens = 0;
  rockets = 0;
  grenades = 0;
  lifesequence = 0;
  waiting = 0;
  timesync = false;
  lastevent = 0;
}

abbrev pub person : ℕ → List ℤ → Name → Member
person n bots team = record {
  clientnum = pos n;
  ownernum = pos n;
  name = name_of "player";
  team = team;
  playermodel = 0;
  privilege = 0;
  connected = true;
  local = false;
  warned = false;
  is_ai = false;
  skill = 0;
  life = LifeState.alive;
  lasttimeplayed = 0;
  bots = bots;
  aireinit = 0;
  player = hurt;
  session = fresh;
}
