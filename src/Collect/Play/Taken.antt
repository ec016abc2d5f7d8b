-- ===== src/Collect/Play/Taken.antt =====
-- What a client has after it took a skull or brought some.
use spaghettimod.Prelude.{
  ℕ, ◌+◌, ◌<◌, ◌≡◌, refl, ap, ◌∙◌, true, false, List, [], ◌∷◌, some, arith, ltb,
}
use spaghettimod.Prelude.Int.{ℤ}
use spaghettimod.Game.Names.{nonempty}
use spaghettimod.Game.Geometry.{Floats}
use spaghettimod.Game.World.{Client, Env, is_alive, getinfo, update_client}
use spaghettimod.Collect.Token.{Token, findtoken}
use spaghettimod.Collect.State.{Collect, collectteambase, tokenlimit}
use spaghettimod.Collect.Play.{counts_for, taketoken}

module _ {F : Type 0} where
  -- A change of a client that keeps its number is found under the number.
  pub getinfo-update_client :
      (cs : List (Client F)) (cn : ℤ) (change : Client F → Client F) (c : Client F)
      → ((d : Client F) → (change d).clientnum ≡ d.clientnum)
      → getinfo cs cn ≡ some c
      → getinfo (update_client cs cn change) cn ≡ some (change c)
  unfolding getinfo
  getinfo-update_client [] cn change c keep e = absurd (cc)
  getinfo-update_client (d ∷ cs) cn change c keep e =
      ground (arith, keep d, getinfo-update_client cs cn change c keep)

module _ {F : Type 0} (fl : Floats F) (env : Env) where
  -- What a request for a skull that counts leaves.
  record Takes (ci d : Client F) (s u : Collect F) : Type 0 where
    same_tokens : u.tokens ≡ s.tokens
    same_bases : u.notgotbases ≡ s.notgotbases
    one_more : getinfo u.world.clients ci.clientnum ≡ some (record d { tokens = ci.tokens + 1 })

  taketoken-Takes :
      (ci d : Client F) (id : ℤ) (t : Token F) (s : Collect F)
      → s.notgotbases ≡ false
      → is_alive ci.life ≡ true
      → nonempty ci.team ≡ true
      → findtoken s.tokens id ≡ some t
      → counts_for fl env (collectteambase ci.team) t ≡ true
      → ci.tokens < tokenlimit
      → getinfo s.world.clients ci.clientnum ≡ some d
      → Takes ci d s (taketoken fl env ci id s)
  unfolding taketoken
  taketoken-Takes ci d id t s got alive team found counts room known =
      let fits : ltb ci.tokens tokenlimit ≡ true = ground (arith, room) in
      rw (found, taketoken)
        (rw (got, alive, team, counts, fits)
          (record {
            same_tokens = refl;
            same_bases = refl;
            one_more =
                getinfo-update_client s.world.clients ci.clientnum
                  (λ c. record c { tokens = ci.tokens + 1 }) d (λ c. refl) known;
          }))

  -- A skull that counts for a client, which is alive, in a team and has room for two more, can be
  -- taken twice: a second request for it counts again.
  pub taketoken_twice :
      (ci : Client F) (id : ℤ) (t : Token F) (s : Collect F)
      → s.notgotbases ≡ false
      → is_alive ci.life ≡ true
      → nonempty ci.team ≡ true
      → findtoken s.tokens id ≡ some t
      → counts_for fl env (collectteambase ci.team) t ≡ true
      → ci.tokens + 1 < tokenlimit
      → getinfo s.world.clients ci.clientnum ≡ some ci
      → getinfo
          (taketoken fl env
            (record ci { tokens = ci.tokens + 1 })
            id
            (taketoken fl env ci id s)).world.clients
          ci.clientnum
        ≡ some (record ci { tokens = ci.tokens + 2 })
  unfolding taketoken
  taketoken_twice ci id t s got alive team found counts room known =
      let once = taketoken-Takes ci ci id t s got alive team found counts (omega arith) known in
      let more : Client F = record ci { tokens = ci.tokens + 1 } in
      let twice =
        taketoken-Takes more more id t (taketoken fl env ci id s) (once.same_bases ∙ got) alive team
          (ap (λ ts. findtoken ts id) once.same_tokens ∙ found) counts room once.one_more in
      twice.one_more ∙ ap (λ (n : ℕ). some (record ci { tokens = n })) (omega arith)
