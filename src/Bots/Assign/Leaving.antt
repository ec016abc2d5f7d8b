-- ===== src/Bots/Assign/Leaving.antt =====
-- What `findaiclient` and `shiftai` do where a client has left `clients`.
use spaghettimod.Prelude.{◌≡◌, ◌≢◌, sym, List, ◌∷◌, Option, none, some, arith}
use spaghettimod.Prelude.Int.{ℤ, eqb_ℤ_iff}
use spaghettimod.Bots.Member.{Member, Host, Bots, find, change}
use spaghettimod.Bots.Member.Store.{eqb_refl}
use spaghettimod.Bots.Assign.{findaiclient, shiftai, left_by, least_from}
use spaghettimod.Bots.Assign.Moves.{shiftai-clients, shiftai-none-clients, shifted, left}

-- A client of another number is not seen.
pub find-cons :
    (c : Member) (cs : List Member) (n : ℤ) → c.clientnum ≢ n → find (c ∷ cs) n ≡ find cs n
unfolding find
find-cons c cs n other = ground (arith, eqb_ℤ_iff c.clientnum n)

pub find-head : (c : Member) (cs : List Member) → find (c ∷ cs) c.clientnum ≡ some c
unfolding find
find-head c cs = ground (arith, eqb_refl c.clientnum)

-- The client that is excluded does not matter.
pub findaiclient-cons :
    (c : Member) (cs : List Member)
    → findaiclient (c ∷ cs) (some c.clientnum) ≡ findaiclient cs (some c.clientnum)
unfolding findaiclient least_from
findaiclient-cons c cs = ground (arith, eqb_refl c.clientnum)

left-cons :
    (ci bot : Member) (cs : List Member)
    → bot.clientnum ≢ ci.clientnum
    → left bot (ci ∷ cs) ≡ left_by (some bot) ci ∷ left bot cs
unfolding change
left-cons ci bot cs apart = ground (
  arith,
  eqb_ℤ_iff ci.clientnum bot.clientnum,
  eqb_ℤ_iff ci.clientnum bot.ownernum,
  eqb_ℤ_iff bot.ownernum ci.clientnum,
)

shifted-cons :
    (ci bot : Member) (o : ℤ) (cs : List Member)
    → bot.clientnum ≢ ci.clientnum
    → o ≢ ci.clientnum
    → shifted bot o (ci ∷ cs) ≡ left_by (some bot) ci ∷ shifted bot o cs
unfolding change
shifted-cons ci bot o cs apart other = ground (
  arith,
  eqb_ℤ_iff ci.clientnum bot.clientnum,
  eqb_ℤ_iff ci.clientnum bot.ownernum,
  eqb_ℤ_iff bot.ownernum ci.clientnum,
  eqb_ℤ_iff ci.clientnum o,
)

-- The new owner has another number.
abbrev pub Differs : Option ℤ → ℤ → Type 0
Differs none n = Unit
Differs (some o) n = o ≢ n

module _ {M : Type 0} (host : Host M) where
  -- shiftai changes a client at the front just in its list of bots, and the others as without it.
  pub shiftai-cons :
      (ci bot : Member) (owner : Option ℤ) (s : Bots M)
      → bot.clientnum ≢ ci.clientnum
      → Differs owner ci.clientnum
      → Differs owner bot.ownernum
      → (shiftai host bot owner (record s { clients = ci ∷ s.clients })).clients
        ≡ left_by (some bot) ci ∷ (shiftai host bot owner s).clients
  shiftai-cons ci bot none s apart other new =
      rw
        (
          shiftai-none-clients host bot (record s { clients = ci ∷ s.clients }),
          shiftai-none-clients host bot s,
        )
        (left-cons ci bot s.clients apart)
  shiftai-cons ci bot (some o) s apart other new =
      let moves : bot.ownernum ≢ o = λ e. new (sym e) in
      rw
        (
          shiftai-clients host bot o (record s { clients = ci ∷ s.clients }) moves,
          shiftai-clients host bot o s moves,
        )
        (shifted-cons ci bot o s.clients apart other)
