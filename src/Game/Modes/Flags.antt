-- ===== src/Game/Modes/Flags.antt =====
-- The `M_...` bits of fpsgame/game.h.
use spaghettimod.Prelude.{ℕ, ◌^◌}

abbrev pub team : ℕ
team = 2 ^ 0

abbrev pub noitems : ℕ
noitems = 2 ^ 1

abbrev pub noammo : ℕ
noammo = 2 ^ 2

abbrev pub insta : ℕ
insta = 2 ^ 3

abbrev pub efficiency : ℕ
efficiency = 2 ^ 4

abbrev pub tactics : ℕ
tactics = 2 ^ 5

abbrev pub capture : ℕ
capture = 2 ^ 6

abbrev pub regen : ℕ
regen = 2 ^ 7

abbrev pub ctf : ℕ
ctf = 2 ^ 8

abbrev pub protect : ℕ
protect = 2 ^ 9

abbrev pub hold : ℕ
hold = 2 ^ 10

abbrev pub edit : ℕ
edit = 2 ^ 12

abbrev pub demo : ℕ
demo = 2 ^ 13

abbrev pub local : ℕ
local = 2 ^ 14

abbrev pub lobby : ℕ
lobby = 2 ^ 15

abbrev pub dmsp : ℕ
dmsp = 2 ^ 16

abbrev pub classicsp : ℕ
classicsp = 2 ^ 17

abbrev pub collect : ℕ
collect = 2 ^ 19
