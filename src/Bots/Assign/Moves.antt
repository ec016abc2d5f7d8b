-- ===== src/Bots/Assign/Moves.antt =====
-- `shiftai` and `removeai` on the map of owners.
use spaghettimod.Prelude.{
  ◌≡◌, ◌≢◌, refl, ap, sym, ◌∙◌, true, false, List, Option, none, some, arith, if◌then◌else◌,
}
use spaghettimod.Prelude.Int.{ℤ, negsuc, eqb_ℤ, eqb_ℤ_iff}
use spaghettimod.Bots.Member.{Member, Host, Bots, find, change, removeobj, add_bot, drop_bot}
use spaghettimod.Bots.Member.Store.{onto, find-change, has-append, has-removeobj}
use spaghettimod.Bots.Assign.{shiftai, join_owner, leave_owner, leave_mode}
use spaghettimod.Bots.Assign.Owners.{listed, owner_is, lists, owns, Owners, assign, CanOwn, Shows}

abbrev pub owned_by : ℤ → Member → Member
owned_by o c = record c { aireinit = 2; ownernum = o }

abbrev pub freed : Member → Member
freed c = record c { aireinit = 0; ownernum = negsuc 0 }

-- `shiftai` as changes of the clients alone.
abbrev pub shifted : Member → ℤ → List Member → List Member
shifted ci o cs =
    change (change (change cs ci.ownernum (drop_bot ci.clientnum)) ci.clientnum (owned_by o)) o
      (add_bot ci.clientnum)

pub find-shifted :
    (ci : Member) (o : ℤ) (cs : List Member) (n : ℤ)
    → find (shifted ci o cs) n
      ≡ onto (eqb_ℤ n o) (add_bot ci.clientnum) (
          onto
            (eqb_ℤ n ci.clientnum)
            (owned_by o)
            (onto (eqb_ℤ n ci.ownernum) (drop_bot ci.clientnum) (find cs n)))
find-shifted ci o cs n =
    find-change (change (change cs ci.ownernum (drop_bot ci.clientnum)) ci.clientnum (owned_by o)) o
      (add_bot ci.clientnum) n (λ c. refl)
    ∙ ap (onto (eqb_ℤ n o) (add_bot ci.clientnum)) (
        find-change (change cs ci.ownernum (drop_bot ci.clientnum)) ci.clientnum (owned_by o) n
          (λ c. refl)
        ∙ ap (onto (eqb_ℤ n ci.clientnum) (owned_by o))
            (find-change cs ci.ownernum (drop_bot ci.clientnum) n (λ c. refl)))

-- What the list of a client holds after the three changes.
listed-shifted :
    (ci : Member) (o : ℤ) (m : Option Member) (n b : ℤ)
    → (m ≡ none → n ≢ o)
    → ci.is_ai ≡ true
    → listed m ci.clientnum ≡ owner_is m (some ci) n
    → listed
        (onto (eqb_ℤ n o) (add_bot ci.clientnum) (
          onto
            (eqb_ℤ n ci.clientnum)
            (owned_by o)
            (onto (eqb_ℤ n ci.ownernum) (drop_bot ci.clientnum) m)))
        b
      ≡ (if eqb_ℤ b ci.clientnum then eqb_ℤ o n else listed m b)
listed-shifted ci o none n b known robot rep = ground (arith, eqb_ℤ_iff o n)
listed-shifted ci o (some c) n b known robot rep = ground (
  arith,
  has-append c.bots ci.clientnum b,
  has-append (removeobj c.bots ci.clientnum) ci.clientnum b,
  has-removeobj c.bots ci.clientnum b,
  eqb_ℤ_iff b ci.clientnum,
  eqb_ℤ_iff ci.clientnum b,
  eqb_ℤ_iff o n,
  eqb_ℤ_iff n o,
  eqb_ℤ_iff n ci.ownernum,
  eqb_ℤ_iff ci.ownernum n,
)

-- What owner a bot has after them.
owner_is-shifted :
    (ci : Member) (o : ℤ) (m d : Option Member) (n b : ℤ)
    → (m ≡ none → n ≢ o)
    → ci.is_ai ≡ true
    → (b ≡ ci.clientnum → d ≡ some ci)
    → owner_is
        (onto (eqb_ℤ n o) (add_bot ci.clientnum) (
          onto
            (eqb_ℤ n ci.clientnum)
            (owned_by o)
            (onto (eqb_ℤ n ci.ownernum) (drop_bot ci.clientnum) m)))
        (onto (eqb_ℤ b o) (add_bot ci.clientnum) (
          onto
            (eqb_ℤ b ci.clientnum)
            (owned_by o)
            (onto (eqb_ℤ b ci.ownernum) (drop_bot ci.clientnum) d)))
        n
      ≡ (if eqb_ℤ b ci.clientnum then eqb_ℤ o n else owner_is m d n)
owner_is-shifted ci o none d n b known robot self = ground (arith, eqb_ℤ_iff o n)
owner_is-shifted ci o (some c) none n b known robot self = ground (arith, eqb_ℤ_iff b ci.clientnum)
owner_is-shifted ci o (some c) (some d) n b known robot self =
    ground (arith, eqb_ℤ_iff b ci.clientnum)

abbrev pub left : Member → List Member → List Member
left ci cs = change (change cs ci.ownernum (drop_bot ci.clientnum)) ci.clientnum freed

pub find-left :
    (ci : Member) (cs : List Member) (n : ℤ)
    → find (left ci cs) n
      ≡ onto
          (eqb_ℤ n ci.clientnum)
          freed
          (onto (eqb_ℤ n ci.ownernum) (drop_bot ci.clientnum) (find cs n))
find-left ci cs n =
    find-change (change cs ci.ownernum (drop_bot ci.clientnum)) ci.clientnum freed n (λ c. refl)
    ∙ ap (onto (eqb_ℤ n ci.clientnum) freed)
        (find-change cs ci.ownernum (drop_bot ci.clientnum) n (λ c. refl))

listed-left :
    (ci : Member) (m : Option Member) (n b : ℤ)
    → ci.is_ai ≡ true
    → listed m ci.clientnum ≡ owner_is m (some ci) n
    → listed
        (onto (eqb_ℤ n ci.clientnum) freed (onto (eqb_ℤ n ci.ownernum) (drop_bot ci.clientnum) m))
        b
      ≡ (if eqb_ℤ b ci.clientnum then false else listed m b)
listed-left ci none n b robot rep = ground (arith)
listed-left ci (some c) n b robot rep = ground (
  arith,
  has-removeobj c.bots ci.clientnum b,
  eqb_ℤ_iff b ci.clientnum,
  eqb_ℤ_iff ci.clientnum b,
  eqb_ℤ_iff n ci.ownernum,
  eqb_ℤ_iff ci.ownernum n,
)

owner_is-left :
    (ci : Member) (m d : Option Member) (n b : ℤ)
    → (m ≢ none → eqb_ℤ (negsuc 0) n ≡ false)
    → ci.is_ai ≡ true
    → (b ≡ ci.clientnum → d ≡ some ci)
    → owner_is
        (onto (eqb_ℤ n ci.clientnum) freed (onto (eqb_ℤ n ci.ownernum) (drop_bot ci.clientnum) m))
        (onto (eqb_ℤ b ci.clientnum) freed (onto (eqb_ℤ b ci.ownernum) (drop_bot ci.clientnum) d))
        n
      ≡ (if eqb_ℤ b ci.clientnum then false else owner_is m d n)
owner_is-left ci none d n b known robot self = ground (arith)
owner_is-left ci (some c) none n b known robot self = ground (arith, eqb_ℤ_iff b ci.clientnum)
owner_is-left ci (some c) (some d) n b known robot self =
    let real : eqb_ℤ (negsuc 0) n ≡ false = known (λ e. absurd (cc)) in
    ground (arith, eqb_ℤ_iff b ci.clientnum)

module _ {M : Type 0} (host : Host M) where
  pub shiftai-clients :
      (ci : Member) (o : ℤ) (s : Bots M)
      → ci.ownernum ≢ o
      → (shiftai host ci (some o) s).clients ≡ shifted ci o s.clients
  unfolding shiftai join_owner leave_owner leave_mode
  shiftai-clients ci o s new = ground (arith, eqb_ℤ_iff ci.ownernum o)

  pub shiftai-none-clients :
      (ci : Member) (s : Bots M) → (shiftai host ci none s).clients ≡ left ci s.clients
  unfolding shiftai join_owner leave_owner leave_mode
  shiftai-none-clients ci s = ground arith

  -- A bot in the game is in the list of its owner alone.
  own_list :
      (w : Owners) (ci : Member) (cs : List Member) (n : ℤ)
      → find cs ci.clientnum ≡ some ci
      → Shows w cs
      → listed (find cs n) ci.clientnum ≡ owner_is (find cs n) (some ci) n
  unfolding lists owns
  own_list w ci cs n self shows =
      shows.by_lists n ci.clientnum
      ∙ sym (shows.by_owners n ci.clientnum)
      ∙ ap (λ d. owner_is (find cs n) d n) self

  -- When the lists of bots and the owners of the bots both are the map `w`, shiftai of a bot in the
  -- game to a client in the game that is not its owner, or to none, makes both the map in which
  -- the bot has that owner and every other bot the one it had.
  pub shiftai-Shows :
      (w : Owners) (ci : Member) (owner : Option ℤ) (s : Bots M)
      → find s.clients ci.clientnum ≡ some ci
      → ci.is_ai ≡ true
      → find s.clients (negsuc 0) ≡ none
      → CanOwn s.clients ci owner
      → Shows w s.clients
      → Shows (assign ci.clientnum owner w) (shiftai host ci owner s).clients
  unfolding lists owns assign
  shiftai-Shows w ci none s self robot real can shows = rw (shiftai-none-clients ci s) (record {
    by_lists = λ n b. rw (find-left ci s.clients n) (
        listed-left ci (find s.clients n) n b robot (own_list w ci s.clients n self shows)
        ∙ ap (λ x. if eqb_ℤ b ci.clientnum then false else x) (shows.by_lists n b));
    by_owners = λ n b.
        rw (find-left ci s.clients n, find-left ci s.clients b)
          (owner_is-left ci (find s.clients n) (find s.clients b) n b
              (λ there. ground (arith, eqb_ℤ_iff (negsuc 0) n)) robot
              (λ e. ap (find s.clients) e ∙ self)
            ∙ ap (λ x. if eqb_ℤ b ci.clientnum then false else x) (shows.by_owners n b));
  })
  shiftai-Shows w ci (some o) s self robot real can shows =
      rw (shiftai-clients ci o s can.1) (record {
        by_lists = λ n b. rw (find-shifted ci o s.clients n) (
            listed-shifted ci o (find s.clients n) n b
              (λ gone e. can.0 (ap (find s.clients) (sym e) ∙ gone)) robot
              (own_list w ci s.clients n self shows)
            ∙ ap (λ x. if eqb_ℤ b ci.clientnum then eqb_ℤ o n else x) (shows.by_lists n b));
        by_owners = λ n b.
            rw (find-shifted ci o s.clients n, find-shifted ci o s.clients b)
              (owner_is-shifted ci o (find s.clients n) (find s.clients b) n b
                  (λ gone e. can.0 (ap (find s.clients) (sym e) ∙ gone)) robot
                  (λ e. ap (find s.clients) e ∙ self)
                ∙ ap (λ x. if eqb_ℤ b ci.clientnum then eqb_ℤ o n else x) (shows.by_owners n b));
      })
