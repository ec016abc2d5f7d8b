-- ===== src/Collect/State.antt =====
-- The state of `collectservmode` and its small members.
use mathlib.Core.Bool.{not}
use spaghettimod.Prelude.{
  ℕ, suc, ◌+◌, ◌-◌, ◌*◌, Bool, true, false, ◌||◌, List, [], ◌∷◌, ◌++◌, ltb, leb, ◌==◌,
  if◌then◌else◌, length, modify, replicate,
}
use spaghettimod.Prelude.Int.{ℤ, pos, eqb_ℤ, ◌+ℤ◌, ltb_ℤ}
use spaghettimod.Game.Items.{ent_flag}
use spaghettimod.Game.Names.{Name, name_of, same_name}
use spaghettimod.Game.Geometry.{Floats, Vec, origin, inside_cylinder}
use spaghettimod.Game.World.{World, Client, Env, Msg, Entity}
use spaghettimod.Ctf.Setup.{ServModeItem}
use spaghettimod.Collect.Token.{Token}

-- `collectteambase`
unfoldable pub collectteambase : Name → ℕ
collectteambase s =
    if same_name s (name_of "good") then 1 else (if same_name s (name_of "evil") then 2 else 0)

-- `collectbaseteam` is not NULL.
abbrev pub has_base_team : ℤ → Bool
has_base_team i = eqb_ℤ i (pos 1) || eqb_ℤ i (pos 2)

pub record Base (F : Type 0) : Type 0 where
  pub id : ℕ
  pub team : ℤ
  pub o : Vec F
  pub laststeal : ℕ

-- `scores[0]` and `scores[1]` are the scores of teams 1 and 2.
pub record Collect (F : Type 0) : Type 0 where
  pub world : World F
  pub bases : List (Base F)
  pub tokens : List (Token F)
  pub score1 : ℤ
  pub score2 : ℤ
  pub nexttoken : ℕ
  pub notgotbases : Bool

abbrev pub collect_radius : ℕ
collect_radius = 16

abbrev pub collect_height : ℕ
collect_height = 16

abbrev pub max_bases : ℕ
max_bases = 20

abbrev pub tokenlimit : ℕ
tokenlimit = 5

abbrev pub unownedtokenlimit : ℕ
unownedtokenlimit = 15

abbrev pub scorelimit : ℕ
scorelimit = 50

abbrev pub collect_respawnsecs : ℕ
collect_respawnsecs = 5

abbrev pub expiretokentime : ℕ
expiretokentime = 10000

abbrev pub stealtokentime : ℕ
stealtokentime = 5000

module _ {F : Type 0} where
  abbrev pub announce : Msg → Collect F → Collect F
  announce m s = record s { world = record s.world { sent = s.world.sent ++ (m ∷ []) } }

  unfoldable pub resetbases : Collect F → Collect F
  resetbases s = record s { bases = []; tokens = []; score1 = pos 0; score2 = pos 0; nexttoken = 0 }

  unfoldable pub totalscore : Collect F → ℤ → ℤ
  totalscore s team =
      if eqb_ℤ team (pos 1) then s.score1 else (if eqb_ℤ team (pos 2) then s.score2 else pos 0)

  unfoldable pub setscore : ℤ → ℤ → Collect F → ℤ × Collect F
  setscore team score s =
      if eqb_ℤ team (pos 1)
      then (score, record s { score1 = score })
      else (if eqb_ℤ team (pos 2) then (score, record s { score2 = score }) else (pos 0, s))

  unfoldable pub addscore : ℤ → ℤ → Collect F → ℤ × Collect F
  addscore team score s =
      if eqb_ℤ team (pos 1)
      then (s.score1 +ℤ score, record s { score1 = s.score1 +ℤ score })
      else if eqb_ℤ team (pos 2)
      then (s.score2 +ℤ score, record s { score2 = s.score2 +ℤ score })
      else (pos 0, s)

  unfoldable pub getteamscore : Collect F → Name → ℤ
  unfolding totalscore
  getteamscore s team = totalscore s (pos (collectteambase team))

  unfoldable pub getteamscores : Collect F → List (Name × ℤ)
  getteamscores s =
      (if eqb_ℤ s.score1 (pos 0) then [] else (name_of "good", s.score1) ∷ [])
      ++ (if eqb_ℤ s.score2 (pos 0) then [] else (name_of "evil", s.score2) ∷ [])

  unfoldable pub insidebase : Floats F → Base F → Vec F → Bool
  unfolding inside_cylinder
  insidebase fl b o = inside_cylinder fl (collect_radius * collect_radius) collect_height b.o o

  unfoldable pub canspawn : Env → Client F → Bool → Bool
  canspawn env ci connecting =
      connecting
      || ci.lastdeath == 0
      || leb (ci.lastdeath + collect_respawnsecs * 1000) (env.gamemillis + env.curtime)

  unfoldable pub reset : Bool → Collect F → Collect F
  unfolding resetbases
  reset empty s = record (resetbases s) { notgotbases = not empty }

  unfoldable pub cleanup : Collect F → Collect F
  unfolding reset
  cleanup s = reset false s

  unfoldable pub newmap : Collect F → Collect F
  unfolding reset
  newmap s = reset true s

  -- A base as `reset` leaves it; its id is set by `addbase`.
  abbrev pub new_base : Floats F → Base F
  new_base fl = record { id = 0; team = pos 0; o = origin fl; laststeal = 0 }

  -- `while(bases.length()<=i) bases.add();` No caller passes a negative index.
  unfoldable pub addbase : Floats F → ℕ → Vec F → ℤ → Collect F → Bool × Collect F
  addbase fl i o team s =
      let padded = s.bases ++ replicate (suc i - length s.bases) (new_base fl) in
      let placed = λ (b : Base F). record (new_base fl) { id = i; team = team; o = o } in
      if leb max_bases i then (false, s) else (true, record s { bases = modify padded i placed })

  unfoldable pub add_entities : Floats F → List (Entity F) → Collect F → Collect F
  unfolding addbase
  add_entities fl [] s = s
  add_entities fl (e ∷ es) s =
      let (added, s1) = addbase fl (length s.bases) e.o e.attr2 s in
      let skipped = add_entities fl es s in
      let rest = add_entities fl es s1 in
      if not (e.type == ent_flag) || ltb_ℤ e.attr2 (pos 1) || ltb_ℤ (pos 2) e.attr2
      then skipped
      else (if added then rest else s1)

  unfoldable pub setup : Floats F → Bool → List (Entity F) → Collect F → Collect F
  unfolding reset add_entities
  setup fl notgotitems ments s =
      let s0 = reset false s in
      if notgotitems || length ments == 0
      then s0
      else record (add_entities fl ments s0) { notgotbases = false }

  unfoldable pub add_items : Floats F → List (ServModeItem F) → ℕ → Collect F → Collect F
  unfolding addbase
  add_items fl [] i s = s
  add_items fl (item ∷ items) i s = add_items fl items (suc i) (addbase fl i item.o item.tag s).1

  unfoldable pub parseitems : Floats F → List (ServModeItem F) → Bool → Collect F → Collect F
  unfolding add_items
  parseitems fl items commit s =
      if not commit || not s.notgotbases
      then s
      else record (add_items fl items 0 s) { notgotbases = false }

unfoldable pub canchangeteam : Name → Bool
unfolding collectteambase
canchangeteam newteam = ltb 0 (collectteambase newteam)
