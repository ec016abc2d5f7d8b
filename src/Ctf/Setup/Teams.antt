-- ===== src/Ctf/Setup/Teams.antt =====
-- The teams of the flags: from the map's entities, and from a client's list.
use mathlib.Core.Bool.{not}
use spaghettimod.Prelude.{
  ℕ, zero, suc, ◌-◌, ◌≡◌, refl, ap, ◌∙◌, inl, inr, Bool, true, false, ◌||◌, List, [], ◌∷◌, ◌++◌,
  arith, length, get_or, modify, modify-last, All, All-append, replicate, if◌then◌else◌, Bool-cases,
  ltb, leb, ◌==◌,
}
use spaghettimod.Prelude.Int.{ℤ, pos, negsuc, ltb_ℤ}
use spaghettimod.Game.Items.{ent_flag}
use spaghettimod.Game.Modes.{m_hold, m_protect}
use spaghettimod.Game.Names.{nonempty}
use spaghettimod.Game.Geometry.{Floats, Vec}
use spaghettimod.Game.World.{Client, Env, Entity, is_alive}
use spaghettimod.Ctf.Flag
use spaghettimod.Ctf.Flag.{Flag, new_flag, nobody}
use spaghettimod.Ctf.State.{Ctf, has_flag_team, maxflags}
use spaghettimod.Ctf.Play.{flag_at, refused, takeflag_at, takeflag, invis_from}
use spaghettimod.Ctf.Setup.{
  ServModeItem, reset, addflag, addholdspawn, pad_flags, add_map_flags, setup, parse_item,
  parseitems,
}

module _ {F : Type 0} (fl : Floats F) (env : Env) where
  get_or-pad :
      (fs : List (Flag F)) (n j : ℕ)
      → get_or (fs ++ replicate n (new_flag fl)) j (new_flag fl) ≡ get_or fs j (new_flag fl)
  get_or-pad [] zero j = refl
  get_or-pad [] (suc n) zero = refl
  get_or-pad [] (suc n) (suc j) = get_or-pad [] n j
  get_or-pad (f ∷ fs) n zero = refl
  get_or-pad (f ∷ fs) n (suc j) = get_or-pad fs n j

  -- Every flag, the one beyond the list too, is of no team.
  abbrev Teamless : List (Flag F) → Type 0
  Teamless fs = (j : ℕ) → (get_or fs j (new_flag fl)).team ≡ pos 0

  Teamless-modify :
      (fs : List (Flag F)) (i : ℕ) (change : Flag F → Flag F)
      → ((f : Flag F) → (change f).team ≡ pos 0)
      → Teamless fs
      → Teamless (modify fs i change)
  Teamless-modify [] i change c t j = refl
  Teamless-modify (f ∷ fs) zero change c t zero = c f
  Teamless-modify (f ∷ fs) zero change c t (suc j) = t (suc j)
  Teamless-modify (f ∷ fs) (suc i) change c t zero = t zero
  Teamless-modify (f ∷ fs) (suc i) change c t (suc j) =
      Teamless-modify fs i change c (λ k. t (suc k)) j

  addflag-Teamless :
      (i : ℕ) (o : Vec F) (s : Ctf F)
      → Teamless s.flags
      → Teamless (addflag fl env i o (pos 0) 0 s).1.flags
  unfolding addflag Flag.reset
  addflag-Teamless i o s t = elim (Bool-cases (leb maxflags i)) [
    | inl full ↦ rw full t
    | inr room ↦ rw room (
        Teamless-modify (pad_flags fl env i s.flags) i
          (λ f. record (Flag.reset fl (record f { id = pos i })) {
            team = pos 0;
            spawnloc = o;
            invistime = 0;
          })
          (λ f. refl)
          (λ j. ap (λ (f : Flag F). f.team) (get_or-pad s.flags (suc i - length s.flags) j) ∙ t j))
  ]

  parse_item-Teamless :
      (items : List (ServModeItem F)) (i : ℕ) (s : Ctf F)
      → m_hold env.gamemode ≡ false
      → m_protect env.gamemode ≡ false
      → Teamless s.flags
      → Teamless (parse_item fl env items i s).flags
  unfolding parse_item
  parse_item-Teamless [] i s h p t j = t j
  parse_item-Teamless (item ∷ items) i s h p t j =
      let placed : (if m_hold env.gamemode
            then (addholdspawn item.o s).1
            else (addflag fl env i item.o (pos (invis_from fl env)) 0 s).1)
          ≡ (addflag fl env i item.o (pos 0) 0 s).1 =
        rw (h, p) in
      ap (λ t. (get_or (parse_item fl env items (suc i) t).flags j (new_flag fl)).team) placed
      ∙ parse_item-Teamless items (suc i) (addflag fl env i item.o (pos 0) 0 s).1 h p
          (addflag-Teamless i item.o s t) j

  parseitems-Teamless :
      (items : List (ServModeItem F)) (s : Ctf F)
      → m_hold env.gamemode ≡ false
      → m_protect env.gamemode ≡ false
      → s.flags ≡ []
      → Teamless (parseitems fl env items true s).flags
  unfolding parseitems
  parseitems-Teamless items s h p e j = elim (Bool-cases s.notgotflags) [
    | inl waiting ↦ simp (waiting, h) (parse_item-Teamless items 0 s h p (λ k. rw e refl) j)
    | inr got ↦ simp (got, e)
  ]

  refused_teamless :
      (ci : Client F) (version : ℤ) (f : Flag F)
      → m_hold env.gamemode ≡ false
      → f.team ≡ pos 0
      → refused fl env ci version f ≡ true
  unfolding refused
  refused_teamless ci version f h e = rw (h, e)

  teamless_untakeable :
      (ci : Client F) (i : ℕ) (version : ℤ) (s : Ctf F)
      → m_hold env.gamemode ≡ false
      → (flag_at fl env s i).team ≡ pos 0
      → takeflag fl env ci (pos i) version s ≡ s
  unfolding takeflag takeflag_at
  teamless_untakeable ci i version s h e =
      elim (Bool-cases (
        s.notgotflags
        || not (ltb i (length s.flags))
        || not (is_alive ci.life)
        || not (nonempty ci.team))) [
          | inl shut ↦ rw shut
          | inr passes ↦ rw (passes, refused_teamless ci version (flag_at fl env s i) h e)
        ]

  -- In the plain flag modes (neither hold nor protect), starting from no flags, no request for a
  -- flag does anything after a committed `parseitems`, whatever the list.
  pub parseitems_untakeable :
      (items : List (ServModeItem F)) (s : Ctf F) (ci : Client F) (i version : ℤ)
      → m_hold env.gamemode ≡ false
      → m_protect env.gamemode ≡ false
      → s.flags ≡ []
      → takeflag fl env ci i version (parseitems fl env items true s)
        ≡ parseitems fl env items true s
  parseitems_untakeable items s ci (negsuc k) version h p e = unfold takeflag in refl
  parseitems_untakeable items s ci (pos i) version h p e =
      teamless_untakeable ci i version (parseitems fl env items true s) h
        (parseitems-Teamless items s h p e i)

  -- A flag of team 1 or 2 that nobody carries.
  abbrev pub AtHome : Flag F → Type 0
  AtHome f = (has_flag_team f.team ≡ true) × (f.owner ≡ nobody)

  addflag-AtHome :
      (o : Vec F) (team : ℤ) (t : ℕ) (s : Ctf F)
      → has_flag_team team ≡ true
      → All AtHome s.flags
      → All AtHome (addflag fl env (length s.flags) o team t s).1.flags
  unfolding addflag Flag.reset
  addflag-AtHome o team t s h a = elim (Bool-cases (leb maxflags (length s.flags))) [
    | inl full ↦ rw full a
    | inr room ↦
        let one : suc (length s.flags) - length s.flags ≡ 1 = omega arith in
        let init = λ (f : Flag F). record (Flag.reset fl (record f { id = pos (length s.flags) })) {
          team = team;
          spawnloc = o;
          invistime = t;
        } in
        rw (room, one, modify-last s.flags (new_flag fl) init)
          (All-append AtHome s.flags (init (new_flag fl) ∷ []) a ((h, refl), tt))
  ]

  add_map_flags-AtHome :
      (ments : List (Entity F)) (s : Ctf F)
      → All AtHome s.flags
      → All AtHome (add_map_flags fl env ments s).flags
  unfolding add_map_flags
  add_map_flags-AtHome [] s a = a
  add_map_flags-AtHome (e ∷ es) s a =
      let added = addflag fl env (length s.flags) e.o e.attr2 (invis_from fl env) s in
      elim (Bool-cases
        (not (e.type == ent_flag) || ltb_ℤ e.attr2 (pos 1) || ltb_ℤ (pos 2) e.attr2)) [
          | inl skip ↦ rw skip (add_map_flags-AtHome es s a)
          | inr take ↦
              let here : All AtHome added.1.flags =
                addflag-AtHome e.o e.attr2 (invis_from fl env) s (ground arith) a in
              elim (Bool-cases added.0) [
                | inl more ↦ rw (take, more) (add_map_flags-AtHome es added.1 here)
                | inr full ↦ rw (take, full) here
              ]
        ]

  -- Outside hold mode a map's flags start at home: after `setup` every flag is of team 1 or 2, and
  -- nobody carries one.
  pub setup-AtHome :
      (notgotitems : Bool) (ments : List (Entity F)) (s : Ctf F)
      → m_hold env.gamemode ≡ false
      → All AtHome (setup fl env notgotitems ments s).flags
  unfolding setup reset
  setup-AtHome notgotitems ments s h = elim (Bool-cases (notgotitems || length ments == 0)) [
    | inl none_yet ↦ rw none_yet tt
    | inr some_ents ↦ rw (some_ents, h) (add_map_flags-AtHome ments (reset false s) tt)
  ]
