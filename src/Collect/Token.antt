-- ===== src/Collect/Token.antt =====
-- `token` of fpsgame/collect.h, and the array of them: `vector::removeunordered` and the loops from
-- the last token to the first that remove some.
pub mod Count
use spaghettimod.Prelude.{
  ℕ, zero, suc, ◌+◌, ◌-◌, Bool, true, false, List, [], ◌∷◌, ◌++◌, Option, none, some, if◌then◌else◌,
  length, get_or, get_elem?, set, take, ◌==◌,
}
use spaghettimod.Prelude.Int.{ℤ, pos, negsuc, eqb_ℤ}
use spaghettimod.Game.Geometry.{Floats, Vec, origin}

-- `dropper` is a client number, -1 - i for the base i that it was stolen from, and INT_MIN where the
-- client has left. A negative `team` is that of an enemy skull.
pub record Token (F : Type 0) : Type 0 where
  pub id : ℕ
  pub team : ℤ
  pub droptime : ℕ
  pub o : Vec F
  pub yaw : ℕ
  pub dropper : ℤ

abbrev pub int_min : ℤ
int_min = negsuc 0x7fffffff

module _ {F : Type 0} where
  -- A token as `reset` leaves it.
  abbrev pub new_token : Floats F → Token F
  new_token fl = record {
    id = 0;
    team = pos 0;
    droptime = 0;
    o = origin fl;
    yaw = 0;
    dropper = negsuc 0;
  }

  unfoldable pub findtoken : List (Token F) → ℤ → Option (Token F)
  findtoken [] id = none
  findtoken (t ∷ ts) id = if eqb_ℤ (pos t.id) id then some t else findtoken ts id

  -- The last token takes the place of the removed one.
  unfoldable pub removeunordered : Floats F → List (Token F) → ℕ → List (Token F)
  removeunordered fl ts i =
      let last = length ts - 1 in take last (set ts i (get_or ts last (new_token fl)))

  -- `loopvrev(tokens)`: `visit` sees the token of index i with what it has counted, and says whether
  -- the token goes, what it becomes and what is counted. The result has the ids that went, in order.
  unfoldable pub sweep {ℓ} :
      {A : Type ℓ}
      → Floats F
      → (A → Token F → Bool × Token F × A)
      → ℕ
      → A
      → List ℕ
      → List (Token F)
      → List ℕ × List (Token F)
  unfolding removeunordered
  sweep fl visit zero a expired ts = (expired, ts)
  sweep fl visit (suc i) a expired ts =
      let t = get_or ts i (new_token fl) in
      let (gone, kept, counted) = visit a t in
      sweep fl visit i counted (if gone then expired ++ (t.id ∷ []) else expired)
        (if gone then removeunordered fl ts i else set ts i kept)

  -- The first token with the id goes.
  unfoldable pub index_of : List (Token F) → ℤ → Option ℕ
  index_of [] id = none
  index_of (t ∷ ts) id =
      if eqb_ℤ (pos t.id) id
      then some 0
      else elim (index_of ts id) [ none ↦ none | some j ↦ some (suc j) ]

  unfoldable pub removetoken : Floats F → List (Token F) → ℤ → Bool × List (Token F)
  unfolding index_of removeunordered
  removetoken fl ts id = elim (index_of ts id) [
    | none ↦ (false, ts)
    | some i ↦ (true, removeunordered fl ts i)
  ]
