-- ===== src/Runtime/Fn.antt =====
-- `enum u6a_vm_fn` of vm_defs.h, as far as `enum u6a_token_fn` does not have its members.
use u6a.Base.{ℕ}

abbrev pub k1 : ℕ
k1 = 32

abbrev pub s1 : ℕ
s1 = 33

abbrev pub s2 : ℕ
s2 = 34

abbrev pub c1 : ℕ
c1 = 35

abbrev pub d1_s : ℕ
d1_s = 96

abbrev pub d1_c : ℕ
d1_c = 97

abbrev pub d1_d : ℕ
d1_d = 64

-- A jump, the end of a delay, and the printing of a constant string.
abbrev pub j : ℕ
j = 128

abbrev pub f : ℕ
f = 129

abbrev pub p : ℕ
p = 130
