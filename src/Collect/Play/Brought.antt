-- ===== src/Collect/Play/Brought.antt =====
-- Skulls that are brought to an enemy base: `deposittokens`.
use Prim.Native.Nat.{min, max}
use mathlib.Core.Path.{subst}
use spaghettimod.Prelude.{
  ℕ, ◌+◌, ◌<◌, ◌≡◌, refl, sym, ap, ◌∙◌, inl, inr, Bool-cases, true, false, ◌&&◌, some, arith,
  length, leb, ltb, ◌==◌, if-both,
}
use spaghettimod.Prelude.Int.{ℤ, pos, ◌+ℤ◌, eqb_ℤ, leb_ℤ}
use spaghettimod.Game.Names.{nonempty}
use spaghettimod.Game.Geometry.{Floats}
use spaghettimod.Game.World.{
  World, Client, Env, Msg, is_alive, getinfo, update_client, change_client, changegamespeed,
  startintermission, send,
}
use spaghettimod.Collect.State.{
  Collect, announce, collectteambase, has_base_team, totalscore, addscore, scorelimit,
}
use spaghettimod.Collect.Play.{base_at, steal_now, no_tokens, bring, deposittokens}
use spaghettimod.Collect.Play.Taken.{getinfo-update_client}

module _ {F : Type 0} (env : Env) where
  speed-clients : (val : ℕ) (w : World F) → (changegamespeed val w).clients ≡ w.clients
  unfolding changegamespeed
  speed-clients val w =
      if-both (λ (x : World F). x.clients ≡ w.clients) (w.gamespeed == max 10 (min val 1000)) w _
        (λ e. refl) (λ e. refl)

  intermission-clients : (w : World F) → (startintermission env w).clients ≡ w.clients
  unfolding startintermission
  intermission-clients w =
      if-both (λ (x : World F). x.clients ≡ w.clients)
        (leb limited.gamelimit env.gamemillis && w.interm == 0) _ limited
        (λ e. speed-clients 100 (send (Msg.time_up 0) limited)) (λ e. refl)
    where
      limited : World F
      limited = record w { gamelimit = min w.gamelimit env.gamemillis }

module _ {F : Type 0} (fl : Floats F) (env : Env) where
  -- The score of the team and what is known of the client.
  pub record Scored (ci : Client F) (score : ℤ) (s : Collect F) : Type 0 where
    team_score : totalscore s (pos (collectteambase ci.team)) ≡ score
    client :
        getinfo s.world.clients ci.clientnum
        ≡ some (record ci { flags = ci.flags + ci.tokens; tokens = 0 })

  addscore-totalscore :
      (team n : ℤ) (s : Collect F)
      → has_base_team team ≡ true
      → (totalscore (addscore team n s).1 team ≡ totalscore s team +ℤ n)
        × ((addscore team n s).1.world ≡ s.world)
  unfolding addscore totalscore
  addscore-totalscore team n s h = elim (Bool-cases (eqb_ℤ team (pos 1))) [
    | inl one ↦ rw one (refl, refl)
    | inr other ↦
        let two : eqb_ℤ team (pos 2) ≡ true = ground (arith, h, other) in
        rw (other, two) (refl, refl)
  ]

  bring-Scored :
      (ci : Client F) (i : ℕ) (s : Collect F)
      → has_base_team (pos (collectteambase ci.team)) ≡ true
      → getinfo s.world.clients ci.clientnum ≡ some ci
      → Scored ci
          (totalscore s (pos (collectteambase ci.team)) +ℤ pos ci.tokens)
          (bring fl env ci i s)
  unfolding bring totalscore
  bring-Scored ci i s team known =
      if-both (Scored ci (totalscore s (pos (collectteambase ci.team)) +ℤ pos ci.tokens))
        (leb_ℤ (pos scorelimit) added.0)
        (record ended { world = startintermission env ended.world }) ended
        (λ e. record {
          team_score = scored.0;
          client =
              ap (λ cs. getinfo cs ci.clientnum) (intermission-clients env ended.world) ∙ credited;
        })
        (λ e. record { team_score = scored.0; client = credited })
    where
      added : ℤ × Collect F
      added = addscore (pos (collectteambase ci.team)) (pos ci.tokens) (steal_now fl env i s)

      scored :
          (totalscore added.1 (pos (collectteambase ci.team))
            ≡ totalscore s (pos (collectteambase ci.team)) +ℤ pos ci.tokens)
          × (added.1.world ≡ s.world)
      scored =
          addscore-totalscore (pos (collectteambase ci.team)) (pos ci.tokens) (steal_now fl env i s)
            team

      ended : Collect F
      ended = no_tokens fl env ci.clientnum (
          announce
            (Msg.deposit_tokens ci.clientnum i ci.tokens
              (collectteambase ci.team, added.0, ci.flags + ci.tokens))
            (record added.1 {
              world =
                  change_client added.1.world ci.clientnum
                    (λ c. record c { flags = ci.flags + ci.tokens });
            }))

      credited :
          getinfo ended.world.clients ci.clientnum
          ≡ some (record ci { flags = ci.flags + ci.tokens; tokens = 0 })
      credited =
          getinfo-update_client
            (update_client added.1.world.clients ci.clientnum
              (λ c. record c { flags = ci.flags + ci.tokens }))
            ci.clientnum (λ c. record c { tokens = 0 }) (record ci { flags = ci.flags + ci.tokens })
            (λ c. refl)
            (getinfo-update_client added.1.world.clients ci.clientnum
              (λ c. record c { flags = ci.flags + ci.tokens }) ci (λ c. refl)
              (ap (λ (w : World F). getinfo w.clients ci.clientnum) scored.1 ∙ known))

  -- A client of team 1 or 2 that is alive and carries skulls brings them to a base of the other team:
  -- its team's score and its own count of scores rise by their number, and it carries none.
  pub deposittokens_brings :
      (ci : Client F) (i : ℕ) (s : Collect F)
      → s.notgotbases ≡ false
      → i < length s.bases
      → is_alive ci.life ≡ true
      → nonempty ci.team ≡ true
      → has_base_team (base_at fl env s i).team ≡ true
      → eqb_ℤ (base_at fl env s i).team (pos (collectteambase ci.team)) ≡ false
      → has_base_team (pos (collectteambase ci.team)) ≡ true
      → 0 < ci.tokens
      → getinfo s.world.clients ci.clientnum ≡ some ci
      → Scored ci
          (totalscore s (pos (collectteambase ci.team)) +ℤ pos ci.tokens)
          (deposittokens fl env ci (pos i) s)
  unfolding deposittokens
  deposittokens_brings ci i s got inside alive named based enemy team carried known =
      let within : ltb i (length s.bases) ≡ true = ground (arith, inside) in
      let carries : ltb 0 ci.tokens ≡ true = ground (arith, carried) in
      let brings : deposittokens fl env ci (pos i) s ≡ bring fl env ci i s =
        rw (got, within, alive, named, based, enemy, carries) refl in
      subst (Scored ci (totalscore s (pos (collectteambase ci.team)) +ℤ pos ci.tokens)) (sym brings)
        (bring-Scored ci i s team known)
