-- ===== src/Game/Samples.antt =====
-- Values for the tests: whole numbers as coordinates, a player, a clock.
use spaghettimod.Prelude.{ℕ, ◌+◌, [], ◌∷◌, false}
use spaghettimod.Prelude.Int.{ℤ, pos, negsuc, ◌+ℤ◌, ◌-ℤ◌, ◌*ℤ◌, leb_ℤ, div_int}
use spaghettimod.Game.Names.{Name, name_of}
use spaghettimod.Game.Items.{gun_pistol}
use spaghettimod.Game.Random.{Rng}
use spaghettimod.Game.Geometry.{Floats, Vec}
use spaghettimod.Game.Player.{FpsState, blue}
use spaghettimod.Game.World.{LifeState, Client, Env, World}

abbrev abs_ℤ : ℤ → ℤ
abs_ℤ (pos n) = pos n
abs_ℤ (negsuc n) = pos (n + 1)

abbrev pub whole : Floats ℤ
whole = record {
  sub = λ a b. a -ℤ b;
  add = λ a b. a +ℤ b;
  mul = λ a b. a *ℤ b;
  abs = abs_ℤ;
  le = leb_ℤ;
  of_int = pos;
  quantize = λ a. a *ℤ pos 16;
  dequantize = λ a. div_int a 16;
}

abbrev pub at : ℕ → Vec ℤ
at n = record { x = pos n; y = pos n; z = pos 0 }

-- A hurt player with some green ammunition.
abbrev pub hurt : FpsState
hurt = record {
  health = pos 40;
  maxhealth = 100;
  armour = 20;
  armourtype = blue;
  quadmillis = 0;
  gunselect = gun_pistol;
  gunwait = 0;
  ammo = 1 ∷ 0 ∷ 0 ∷ 5 ∷ 0 ∷ 0 ∷ 40 ∷ 0 ∷ 0 ∷ 0 ∷ 0 ∷ 0 ∷ [];
}

-- A generator that counts.
abbrev pub counting : Rng
counting = record { output = λ n. n; used = 0 }

abbrev pub player : ℕ → Name → Client ℤ
player cn team = record {
  clientnum = pos cn;
  team = team;
  gameclip = false;
  life = LifeState.alive;
  o = at cn;
  lastdeath = 0;
  flags = 0;
  tokens = 0;
  player = hurt;
}

abbrev pub good_player : Client ℤ
good_player = player 1 (name_of "good")

abbrev pub evil_player : Client ℤ
evil_player = player 2 (name_of "evil")

abbrev pub clock : ℤ → Env
clock gamemode = record {
  gamemode = gamemode;
  lastmillis = 50000;
  gamemillis = 50000;
  curtime = 30;
  ctftkpenalty = false;
}

abbrev pub two_players : World ℤ
two_players = record {
  clients = good_player ∷ evil_player ∷ [];
  gamelimit = 600000;
  interm = 0;
  gamespeed = 100;
  rng = counting;
  sent = [];
}
