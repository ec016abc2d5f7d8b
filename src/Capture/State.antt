-- ===== src/Capture/State.antt =====
-- The state of `captureservmode`: bases and scores.
pub mod Groups
use mathlib.Core.Bool.{not}
use mathlib.Core.List.{map}
use spaghettimod.Prelude.{
  ℕ, zero, suc, ◌+◌, ◌*◌, Bool, true, false, ◌&&◌, ◌||◌, List, [], ◌∷◌, ◌++◌, Option, none, some,
  ltb, leb, ◌==◌, if◌then◌else◌, length, get_or, modify,
}
use spaghettimod.Prelude.Int.{ℤ, pos, negsuc, eqb_ℤ}
use spaghettimod.Game.Names.{Name, same_name, nonempty, copystring, max_str_len}
use spaghettimod.Game.Geometry.{Floats, Vec, inside_cylinder}
use spaghettimod.Game.World.{World, Msg, draw}
use spaghettimod.Capture.Base.{BaseInfo, new_base}

pub record Score : Type 0 where
  pub team : Name
  pub total : ℤ

pub record Capture (F : Type 0) : Type 0 where
  pub world : World F
  pub bases : List (BaseInfo F)
  pub scores : List Score
  pub captures : ℕ
  pub notgotbases : Bool

abbrev pub captureradius : ℕ
captureradius = 64

abbrev pub captureheight : ℕ
captureheight = 24

abbrev pub capture_maxbases : ℕ
capture_maxbases = 100

-- I_GRENADES-I_SHELLS+1
abbrev pub ammotypes : ℕ
ammotypes = 5

unfoldable pub getteamscore : List Score → Name → ℤ
getteamscore [] team = pos 0
getteamscore (cs ∷ scores) team =
    if same_name cs.team team then cs.total else getteamscore scores team

-- A change of `findscore(team).total`: a team without a score gets one, which starts at 0.
unfoldable pub change_score : Name → (ℤ → ℤ) → List Score → List Score
change_score team change [] =
    record { team = copystring max_str_len team; total = change (pos 0) } ∷ []
change_score team change (cs ∷ scores) =
    if same_name cs.team team
    then record cs { total = change cs.total } ∷ scores
    else cs ∷ change_score team change scores

abbrev pub seen : ℤ → List ℤ → Bool
seen g [] = false
seen g (h ∷ hs) = eqb_ℤ h g || seen g hs

module _ {F : Type 0} where
  abbrev pub report : Msg → Capture F → Capture F
  report m s = record s { world = record s.world { sent = s.world.sent ++ (m ∷ []) } }

  abbrev pub change_base : ℕ → (BaseInfo F → BaseInfo F) → Capture F → Capture F
  change_base i f s = record s { bases = modify s.bases i f }

  unfoldable pub resetbases : Capture F → Capture F
  resetbases s = record s { bases = []; scores = []; captures = 0 }

  unfoldable pub reset : Bool → Capture F → Capture F
  unfolding resetbases
  reset empty s = record (resetbases s) { notgotbases = not empty }

  unfoldable pub cleanup : Capture F → Capture F
  unfolding reset
  cleanup s = reset false s

  unfoldable pub newmap : Capture F → Capture F
  unfolding reset
  newmap s = reset true s

  unfoldable pub getteamscores : Capture F → List (Name × ℤ)
  getteamscores s = map (λ (cs : Score). (cs.team, cs.total)) s.scores

  unfoldable pub hasbases : Name → List (BaseInfo F) → Bool
  hasbases team [] = false
  hasbases team (b ∷ bs) = nonempty b.owner && same_name b.owner team || hasbases team bs

  unfoldable pub insidebase : Floats F → BaseInfo F → Vec F → Bool
  unfolding inside_cylinder
  insidebase fl b o = inside_cylinder fl (captureradius * captureradius) captureheight b.o o

  -- The type of the first base of a group.
  unfoldable pub group_type : ℤ → List (BaseInfo F) → Option ℕ
  group_type g [] = none
  group_type g (b ∷ bs) = if eqb_ℤ g b.ammogroup then some b.ammotype else group_type g bs

  -- `uses[k]`: how many groups have the type k + 1; `before` are the groups of the bases before.
  unfoldable pub uses : List ℤ → List (BaseInfo F) → ℕ → ℕ
  uses before [] k = 0
  uses before (b ∷ bs) k =
      (if not (eqb_ℤ b.ammogroup (pos 0)) && not (seen b.ammogroup before) && b.ammotype == k + 1
        then 1
        else 0)
      + uses (b.ammogroup ∷ before) bs k

-- `if(uses[i] < uses[mintype]) mintype = i;`
unfoldable pub mintype : (ℕ → ℕ) → ℕ → ℕ → ℕ → ℕ
mintype count zero i best = best
mintype count (suc left) i best =
    mintype count left (suc i) (if ltb (count i) (count best) then i else best)

-- `if(uses[i] == uses[mintype]) avail[numavail++] = i+1;`
unfoldable pub avail : (ℕ → ℕ) → ℕ → ℕ → ℕ → List ℕ
avail count best zero i = []
avail count best (suc left) i =
    (if count i == count best then (i + 1) ∷ [] else []) ++ avail count best left (suc i)

module _ {F : Type 0} (fl : Floats F) where
  -- `ammotype > 0 ? ammotype : rnd(I_GRENADES-I_SHELLS+1)+1`
  abbrev pub first_type : ℤ → World F → ℕ × World F
  first_type (pos zero) w = let (n, w') = draw ammotypes w in (n + 1, w')
  first_type (pos (suc k)) w = (suc k, w)
  first_type (negsuc k) w = let (n, w') = draw ammotypes w in (n + 1, w')

  -- The type of a base of the group `g` behind the bases `bs`.
  unfoldable pub choose_type : ℤ → List (BaseInfo F) → ℕ → World F → ℕ × World F
  unfolding group_type uses mintype avail
  choose_type g bs drawn w =
      let count = uses [] bs in
      let types = avail count (mintype count ammotypes 0 0) ammotypes 0 in
      let (k, w') = draw (length types) w in
      if eqb_ℤ g (pos 0)
      then (drawn, w)
      else elim (group_type g bs) [ some type ↦ (type, w) | none ↦ (get_or types k 0, w') ]

  -- `min(ammotype, 0)`
  abbrev pub group_of : ℤ → ℤ
  group_of (pos n) = pos 0
  group_of (negsuc n) = negsuc n

  unfoldable pub addbase : ℤ → Vec F → Capture F → Capture F
  unfolding choose_type
  addbase ammotype o s =
      let (drawn, w) = first_type ammotype s.world in
      let (type, w') = choose_type (group_of ammotype) s.bases drawn w in
      let b = record (new_base fl) { ammogroup = group_of ammotype; ammotype = type; o = o } in
      if leb capture_maxbases (length s.bases)
      then s
      else record s { world = w'; bases = s.bases ++ (b ∷ []) }
