-- ===== src/Bots/Assign/Owning.antt =====
-- What `findaiclient` gives for the bots of a client, and the client after a shift of one.
use spaghettimod.Prelude.{◌≡◌, ◌≢◌, sym, ◌∙◌, true, false, List, Option, none, some, arith}
use spaghettimod.Prelude.Int.{ℤ, eqb_ℤ_iff}
use spaghettimod.Bots.Member.{Member, Host, Bots, find}
use spaghettimod.Bots.Member.Load.{found_self}
use spaghettimod.Bots.Assign.{validaiclient, is_excluded, findaiclient, number, shiftai, left_by}
use spaghettimod.Bots.Assign.Owners.{CanOwn}
use spaghettimod.Bots.Assign.Moves.{find-shifted, find-left, shiftai-clients, shiftai-none-clients}
use spaghettimod.Bots.Assign.Even.{Sound}
use spaghettimod.Bots.Assign.Least.{Holds, findaiclient_least, findaiclient-Holds}
use spaghettimod.Bots.Assign.Leaving.{Differs}

-- An owner that findaiclient finds without the client `n` is another one, and can own what `n`
-- owns.
pub found-CanOwn :
    (n : ℤ) (cs : List Member) (bot : Member)
    → Sound cs
    → bot.ownernum ≡ n
    → let o = number (findaiclient cs (some n)) in
      CanOwn cs bot o × Differs o n × Differs o bot.ownernum
found-CanOwn n cs bot sound own =
    can_own (findaiclient cs (some n))
      (findaiclient-Holds _ cs (some n) (found_self cs sound.distinct))
      (findaiclient_least cs (some n)).0
  where
    can_own :
        (o : Option Member)
        → Holds (λ c. find cs c.clientnum ≡ some c) o
        → Holds (λ c. (validaiclient c ≡ true) × (is_excluded (some n) c ≡ false)) o
        → CanOwn cs bot (number o) × Differs (number o) n × Differs (number o) bot.ownernum
    can_own none found valid = (tt, tt, tt)
    can_own (some c) found valid =
        let other : c.clientnum ≢ n = λ e. ground (arith, e, valid.1, eqb_ℤ_iff c.clientnum n) in
        (
          (λ gone. absurd (ground (arith, gone, found)), λ e. other (sym e ∙ own)),
          other,
          λ e. other (e ∙ own),
        )

module _ {M : Type 0} (host : Host M) where
  -- What the owner of a bot is after the bot gets another owner.
  pub find-owner :
      (ci bot : Member) (owner : Option ℤ) (s : Bots M)
      → CanOwn s.clients bot owner
      → Differs owner ci.clientnum
      → bot.clientnum ≢ ci.clientnum
      → find s.clients ci.clientnum ≡ some ci
      → find (shiftai host bot owner s).clients ci.clientnum ≡ some (left_by (some bot) ci)
  find-owner ci bot none s can other apart self =
      rw (shiftai-none-clients host bot s, find-left bot s.clients ci.clientnum, self)
        (ground (
          arith,
          eqb_ℤ_iff ci.clientnum bot.clientnum,
          eqb_ℤ_iff ci.clientnum bot.ownernum,
          eqb_ℤ_iff bot.ownernum ci.clientnum,
        ))
  find-owner ci bot (some o) s can other apart self =
      rw (shiftai-clients host bot o s can.1, find-shifted bot o s.clients ci.clientnum, self)
        (ground (
          arith,
          eqb_ℤ_iff ci.clientnum bot.clientnum,
          eqb_ℤ_iff ci.clientnum bot.ownernum,
          eqb_ℤ_iff bot.ownernum ci.clientnum,
          eqb_ℤ_iff ci.clientnum o,
        ))

  pub find-absent :
      (n : ℤ) (bot : Member) (owner : Option ℤ) (s : Bots M)
      → Differs owner bot.ownernum
      → find s.clients n ≡ none
      → find (shiftai host bot owner s).clients n ≡ none
  find-absent n bot none s new gone =
      rw (shiftai-none-clients host bot s, find-left bot s.clients n, gone) (ground arith)
  find-absent n bot (some o) s new gone =
      rw (shiftai-clients host bot o s (λ e. new (sym e)), find-shifted bot o s.clients n, gone)
        (ground arith)
