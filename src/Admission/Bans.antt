-- ===== src/Admission/Bans.antt =====
-- The bans of fpsgame/server.cpp, ordered by the time at which they end. The clock and the lengths
-- of bans stay far below 2^31, so their sums and differences do not wrap.
pub mod History
use spaghettimod.Prelude.{
  ℕ, ◌+◌, Bool, true, false, ◌||◌, List, [], ◌∷◌, ltb, leb, ◌==◌, if◌then◌else◌,
}

pub record Ban : Type 0 where
  pub time : ℕ
  pub expire : ℕ
  pub ip : ℕ

-- `allowedips` and `bannedips`.
pub record BanLists : Type 0 where
  pub allowed : List ℕ
  pub banned : List Ban

-- `allowedips.removeobj(ip)`
unfoldable pub remove_ip : List ℕ → ℕ → List ℕ
remove_ip [] ip = []
remove_ip (x ∷ xs) ip = let rest = remove_ip xs ip in if x == ip then rest else x ∷ rest

-- Before the first ban that ends later.
unfoldable pub insert_ban : Ban → List Ban → List Ban
insert_ban b [] = b ∷ []
insert_ban b (c ∷ bs) =
    let rest = insert_ban b bs in if ltb b.expire c.expire then b ∷ c ∷ bs else c ∷ rest

unfoldable pub addban : ℕ → ℕ → ℕ → BanLists → BanLists
addban totalmillis ip expire s = record {
  allowed = remove_ip s.allowed ip;
  banned =
      insert_ban (record { time = totalmillis; expire = totalmillis + expire; ip = ip }) s.banned;
}

-- The loop of `serverupdate`, which takes bans from the front.
unfoldable pub end_bans : ℕ → List Ban → List Ban
end_bans totalmillis [] = []
end_bans totalmillis (b ∷ bs) =
    let rest = end_bans totalmillis bs in if leb b.expire totalmillis then rest else b ∷ bs

-- The loop of `checkbans`.
unfoldable pub is_banned : List Ban → ℕ → Bool
is_banned [] ip = false
is_banned (b ∷ bs) ip = b.ip == ip || is_banned bs ip
