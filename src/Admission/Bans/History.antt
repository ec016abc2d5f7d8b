-- ===== src/Admission/Bans/History.antt =====
-- The bans in force against the history of the bans: the list is in the order in which bans end,
-- and an address is banned exactly as long as some ban of it lasts.
use spaghettimod.Prelude.{
  ℕ, ◌+◌, ◌≤◌, ◌≡◌, refl, ap, ◌∙◌, Bool, true, false, ◌&&◌, ◌||◌, List, [], ◌∷◌, arith, ltb, leb,
  ◌==◌, All, if-both, Bool-cases, inl, inr,
}
use spaghettimod.Admission.Bans.{Ban, BanLists, insert_ban, addban, end_bans, is_banned}

-- Some ban of the address ends after `n`.
unfoldable pub lasts : ℕ → List Ban → ℕ → Bool
lasts n [] ip = false
lasts n (b ∷ bs) ip = (b.ip == ip && ltb n b.expire) || lasts n bs ip

-- The bans, with the clock of the last tick and the bans made since the server was empty.
pub record Log : Type 0 where
  pub now : ℕ
  pub made : List Ban
  pub lists : BanLists

-- What can happen to the bans.
pub data Step : Log → Log → Type 0 where
  ban :
      (s : Log) (millis ip length : ℕ)
      → Step s (record s {
        made = record { time = millis; expire = millis + length; ip = ip } ∷ s.made;
        lists = addban millis ip length s.lists;
      })
  tick :
      (s : Log) (millis : ℕ)
      → s.now ≤ millis
      → Step s (record s {
        now = millis;
        lists = record s.lists { banned = end_bans millis s.lists.banned };
      })
  no_clients : (s : Log) → Step s (record s { made = []; lists = record s.lists { banned = [] } })

pub data Reach (s : Log) : Log → Type 0 where
  here : Reach s s
  next : {t u : Log} → Reach s t → Step t u → Reach s u

abbrev pub start : Log
start = record { now = 0; made = []; lists = record { allowed = []; banned = [] } }

-- Each ban ends no later than those behind it.
abbrev InOrder : List Ban → Type 0
InOrder [] = Unit
InOrder (b ∷ bs) = All (λ c. b.expire ≤ c.expire) bs × InOrder bs

All-insert_ban :
    (P : Ban → Type 0) (b : Ban) (bs : List Ban) → P b → All P bs → All P (insert_ban b bs)
unfolding insert_ban
All-insert_ban P b [] p all = (p, tt)
All-insert_ban P b (c ∷ bs) p all =
    if-both (All P) (ltb b.expire c.expire) (b ∷ c ∷ bs) (c ∷ insert_ban b bs) (λ e. (p, all))
      (λ e. (all.0, All-insert_ban P b bs p all.1))

later_all :
    (n m : ℕ) (bs : List Ban) → n ≤ m → All (λ c. m ≤ c.expire) bs → All (λ c. n ≤ c.expire) bs
later_all n m [] h all = tt
later_all n m (c ∷ bs) h all = (omega (arith, all.0), later_all n m bs h all.1)

insert_ban-InOrder : (b : Ban) (bs : List Ban) → InOrder bs → InOrder (insert_ban b bs)
unfolding insert_ban
insert_ban-InOrder b [] h = (tt, tt)
insert_ban-InOrder b (c ∷ bs) h =
    if-both InOrder (ltb b.expire c.expire) (b ∷ c ∷ bs) (c ∷ insert_ban b bs)
      (λ e. ((ground arith, later_all b.expire c.expire bs (ground arith) h.0), h))
      (λ e. (
        All-insert_ban (λ x. c.expire ≤ x.expire) b bs (ground arith) h.0,
        insert_ban-InOrder b bs h.1,
      ))

end_bans-InOrder : (n : ℕ) (bs : List Ban) → InOrder bs → InOrder (end_bans n bs)
unfolding end_bans
end_bans-InOrder n [] h = tt
end_bans-InOrder n (b ∷ bs) h =
    if-both InOrder (leb b.expire n) (end_bans n bs) (b ∷ bs) (λ e. end_bans-InOrder n bs h.1)
      (λ e. h)

lasts-insert_ban :
    (n : ℕ) (b : Ban) (bs : List Ban) (ip : ℕ) → lasts n (insert_ban b bs) ip ≡ lasts n (b ∷ bs) ip
unfolding insert_ban lasts
lasts-insert_ban n b [] ip = refl
lasts-insert_ban n b (c ∷ bs) ip = ground (arith, lasts-insert_ban n b bs ip)

-- Bans that have ended by `m` do not last beyond a later time.
lasts-end_bans :
    (n m : ℕ) (bs : List Ban) (ip : ℕ) → m ≤ n → lasts n (end_bans m bs) ip ≡ lasts n bs ip
unfolding end_bans lasts
lasts-end_bans n m [] ip h = refl
lasts-end_bans n m (b ∷ bs) ip h = ground (arith, lasts-end_bans n m bs ip h)

lasts_all :
    (n : ℕ) (bs : List Ban) (ip : ℕ)
    → All (λ c. n + 1 ≤ c.expire) bs
    → is_banned bs ip ≡ lasts n bs ip
unfolding is_banned lasts
lasts_all n [] ip all = refl
lasts_all n (b ∷ bs) ip all = ground (arith, all.0, lasts_all n bs ip all.1)

over :
    (n : ℕ) (b : Ban) (bs : List Ban) (ip : ℕ)
    → leb b.expire n ≡ true
    → lasts n bs ip ≡ lasts n (b ∷ bs) ip
unfolding lasts
over n b bs ip ended = ground arith

-- In a list in order the loop of the tick leaves just the bans that last.
is_banned-end_bans :
    (n : ℕ) (bs : List Ban) (ip : ℕ) → InOrder bs → is_banned (end_bans n bs) ip ≡ lasts n bs ip
unfolding end_bans
is_banned-end_bans n [] ip h = lasts_all n [] ip tt
is_banned-end_bans n (b ∷ bs) ip h = elim (Bool-cases (leb b.expire n)) [
  | inl ended ↦ rw ended (is_banned-end_bans n bs ip h.1 ∙ over n b bs ip ended)
  | inr still ↦
      rw still
        (lasts_all n (b ∷ bs) ip (ground arith, later_all (n + 1) b.expire bs (ground arith) h.0))
]

-- The list is in order, and as to later times it has the bans that were made.
record Kept (s : Log) : Type 0 where
  order : InOrder s.lists.banned
  same : (n ip : ℕ) → s.now ≤ n → lasts n s.lists.banned ip ≡ lasts n s.made ip

Step-Kept : {s t : Log} → Step s t → Kept s → Kept t
unfolding addban lasts
Step-Kept (ban s millis ip length) k =
    let b : Ban = record { time = millis; expire = millis + length; ip = ip } in
    record {
      order = insert_ban-InOrder b s.lists.banned k.order;
      same = λ n ip' h.
          lasts-insert_ban n b s.lists.banned ip'
          ∙ ap (λ x. (b.ip == ip' && ltb n b.expire) || x) (k.same n ip' h);
    }
Step-Kept (tick s millis later) k = record {
  order = end_bans-InOrder millis s.lists.banned k.order;
  same = λ n ip h. lasts-end_bans n millis s.lists.banned ip h ∙ k.same n ip (omega arith);
}
Step-Kept (no_clients s) k = record { order = tt; same = λ n ip h. refl }

Reach-Kept : {s t : Log} → Kept s → Reach s t → Kept t
Reach-Kept k here = k
Reach-Kept k (next r step) = Step-Kept step (Reach-Kept k r)

-- In every state that bans, ticks of the server and its running empty lead to, after one more tick
-- at a time that is not before the last an address is banned exactly if some ban of it, made since
-- the server was empty, ends after that time.
pub bans_last :
    (s : Log) (millis ip : ℕ)
    → Reach start s
    → s.now ≤ millis
    → is_banned (end_bans millis s.lists.banned) ip ≡ lasts millis s.made ip
bans_last s millis ip r later =
    let k = Reach-Kept (record { order = tt; same = λ n ip h. refl }) r in
    is_banned-end_bans millis s.lists.banned ip k.order ∙ k.same millis ip later
