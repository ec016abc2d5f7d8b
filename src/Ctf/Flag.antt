-- ===== src/Ctf/Flag.antt =====
-- `struct flag` of fpsgame/ctf.h and the members that change one flag.
-- Times are milliseconds of the server clock, 0 where the flag is not dropped, held or invisible.
use Prim.Native.Nat.{min}
use mathlib.Core.Bool.{not}
use spaghettimod.Prelude.{ℕ, ◌+◌, ◌-◌, ◌*◌, ◌^◌, Bool, ◌&&◌, ltb, leb, ◌==◌, if◌then◌else◌}
use spaghettimod.Prelude.Int.{ℤ, pos, negsuc, eqb_ℤ, nonneg, sub_ℕ}
use spaghettimod.Game.Geometry.{Floats, Vec, origin}

-- `owner` and `dropper` are client numbers, -1 for none; so is `spawnindex` among the spawn places.
pub record Flag (F : Type 0) : Type 0 where
  pub id : ℤ
  pub version : ℕ
  pub spawnindex : ℤ
  pub droploc : Vec F
  pub spawnloc : Vec F
  pub team : ℤ
  pub droptime : ℕ
  pub owntime : ℕ
  pub holdtime : ℕ
  pub owner : ℤ
  pub dropcount : ℕ
  pub dropper : ℤ
  pub invistime : ℕ

abbrev pub nobody : ℤ
nobody = negsuc 0

-- INT_MAX
abbrev pub int_max : ℕ
int_max = 2 ^ 31 - 1

-- `HOLDDEATHPENALTY`
abbrev pub hold_death_penalty : ℕ
hold_death_penalty = 5

module _ {F : Type 0} where
  abbrev pub has_owner : Flag F → Bool
  has_owner f = nonneg f.owner

  -- A flag as `reset` leaves it.
  abbrev pub blank : Floats F → ℤ → Flag F
  blank fl i = record {
    id = i;
    version = 0;
    spawnindex = negsuc 0;
    droploc = origin fl;
    spawnloc = origin fl;
    team = pos 0;
    droptime = 0;
    owntime = 0;
    holdtime = 0;
    owner = nobody;
    dropcount = 0;
    dropper = nobody;
    invistime = 0;
  }

  unfoldable pub reset : Floats F → Flag F → Flag F
  reset fl f = blank fl f.id

  -- `flag() : id(-1) { reset(); }`
  abbrev pub new_flag : Floats F → Flag F
  new_flag fl = blank fl (negsuc 0)

  -- How long a flag counts as held; a dropped flag runs back from the time that it was held.
  -- `max((droptime - holdtime) - (lastmillis - droptime), 0)` is written as one subtraction.
  unfoldable pub holdcounter : ℕ → Flag F → ℤ
  holdcounter lastmillis f =
      if f.holdtime == 0
      then pos 0
      else if not (has_owner f) && not (f.droptime == 0) && leb f.holdtime f.droptime
      then pos (f.droptime + f.droptime - (f.holdtime + lastmillis))
      else sub_ℕ lastmillis f.holdtime

  -- The hold time of a flag that is taken: a team that takes back its own flag keeps the time that
  -- it held, less twice the time that the flag lay on the ground.
  abbrev pub resumed : ℕ → Flag F → ℕ
  resumed owntime f =
      if not (f.droptime == 0) && ltb f.droptime owntime
      then f.holdtime + 2 * (owntime - f.droptime)
      else f.holdtime

  -- `ownflag`; `ownteam` is -1 where the modes do not change the flag's team.
  unfoldable pub own : ℤ → ℕ → ℤ → Flag F → Flag F
  own owner owntime ownteam f =
      let kept = not (f.holdtime == 0) && eqb_ℤ f.team ownteam in
      record f {
        owner = owner;
        owntime = owntime;
        holdtime = if kept then min (resumed owntime f) owntime else owntime;
        team = if kept then f.team else (if nonneg ownteam then ownteam else f.team);
        dropcount =
            if eqb_ℤ owner f.dropper
            then (if ltb f.dropcount int_max then f.dropcount + 1 else f.dropcount)
            else 0;
        dropper = nobody;
        invistime = 0;
      }

  -- `dropflag(i, o, droptime, dropper, penalty)`
  unfoldable pub drop : Vec F → ℕ → ℤ → Bool → Flag F → Flag F
  drop o droptime dropper penalty f = record f {
    droploc = o;
    droptime = droptime;
    dropcount = if not (nonneg dropper) then 0 else (if penalty then int_max else f.dropcount);
    dropper = dropper;
    owner = nobody;
    invistime = 0;
  }

  -- `returnflag(i, invistime)`
  unfoldable pub return_home : ℕ → Flag F → Flag F
  return_home invistime f = record f {
    droptime = 0;
    holdtime = 0;
    dropcount = 0;
    owner = nobody;
    dropper = nobody;
    invistime = invistime;
  }

  -- `deadflag(i)`: death costs hold time, and all of it if the penalty reaches the limit.
  unfoldable pub penalise : ℕ → Flag F → Flag F
  penalise lastmillis f =
      let limit =
        if not (has_owner f) && not (f.droptime == 0) && leb f.holdtime f.droptime
        then f.droptime
        else lastmillis in
      let t = f.holdtime + hold_death_penalty * 1000 in
      if f.holdtime == 0 then f else record f { holdtime = if leb limit t then 0 else t }

  abbrev pub bump_version : Flag F → Flag F
  bump_version f = record f { version = f.version + 1 }

  -- `if(dropper == cn) { dropper = -1; dropcount = 0; }`
  unfoldable pub forget_dropper : ℤ → Flag F → Flag F
  forget_dropper cn f =
      if eqb_ℤ f.dropper cn then record f { dropper = nobody; dropcount = 0 } else f
