-- ===== src/Defs/TokenFn.antt =====
-- `enum u6a_token_fn` of defs.h.
use u6a.Base.{ℕ}

abbrev pub placeholder : ℕ
placeholder = 0

abbrev pub k : ℕ
k = 1

abbrev pub s : ℕ
s = 2

abbrev pub i : ℕ
i = 3

abbrev pub v : ℕ
v = 4

abbrev pub c : ℕ
c = 5

abbrev pub d : ℕ
d = 6

abbrev pub e : ℕ
e = 7

-- `@`
abbrev pub at : ℕ
at = 8

-- `|`
abbrev pub pipe : ℕ
pipe = 9

-- `.`
abbrev pub out : ℕ
out = 16

-- `?`
abbrev pub cmp : ℕ
cmp = 17

-- `` ` ``
abbrev pub app : ℕ
app = 32
