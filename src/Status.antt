-- ===== src/Status.antt =====
-- include/types/status.h: the error codes, which the code mixes with other integers.
use quark_kernel.Base.{ℕ}

abbrev pub enone : ℕ
enone = 0

abbrev pub enullptr : ℕ
enullptr = 1

abbrev pub eoutofbounds : ℕ
eoutofbounds = 2

abbrev pub einvalidarg : ℕ
einvalidarg = 3

abbrev pub enomem : ℕ
enomem = 4

abbrev pub edoesntexist : ℕ
edoesntexist = 6

abbrev pub eexists : ℕ
eexists = 7

abbrev pub enosyscall : ℕ
enosyscall = 8

abbrev pub eperm : ℕ
eperm = 9

abbrev pub ebusy : ℕ
ebusy = 10

abbrev pub eexited : ℕ
eexited = 11
